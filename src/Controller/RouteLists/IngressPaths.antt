-- ===== src/Controller/RouteLists/IngressPaths.antt =====
-- What `CreateIngressForCloudshell` and `removeCloudshellRoute` do to the paths of an ingress.
use cloudtty.Base.{
  String, Bool, true, false, ◌&&◌, List, [], ◌∷◌, ◌++◌, if◌then◌else◌, ◌==◌, ◌≡◌, refl, arith,
  eq_iff,
}
use cloudtty.Objects.{IngressPath}
use cloudtty.Controller.RouteLists.{has_path, repoint, put_path, drop_path}

-- The paths lead the route to the service at the shell's port, and the route is there.
abbrev pub all_lead : String → String → List IngressPath → Bool
all_lead route service [] = true
all_lead route service (p ∷ ps) =
    let rest = all_lead route service ps in
    if route == p.path then p.service == service && rest else rest

drop_path-append :
    (route service : String) (ps : List IngressPath)
    → drop_path route (ps ++ (record { path = route; service = service; port = 7681 } ∷ []))
      ≡ drop_path route ps
unfolding drop_path
drop_path-append route service [] = ground (arith, eq_iff route route)
drop_path-append route service (p ∷ ps) = ground (arith, drop_path-append route service ps)

drop_path-repoint :
    (route service : String) (ps : List IngressPath)
    → drop_path route (repoint route service ps) ≡ drop_path route ps
unfolding drop_path
drop_path-repoint route service [] = refl
drop_path-repoint route service (p ∷ ps) = ground (arith, drop_path-repoint route service ps)

-- Setting a shell's route leaves the paths of all other routes as they are, in their order.
pub drop_path-put_path :
    (route service : String) (ps : List IngressPath)
    → drop_path route (put_path route service ps) ≡ drop_path route ps
unfolding put_path
drop_path-put_path route service ps =
    ground (arith, drop_path-append route service ps, drop_path-repoint route service ps)

drop_path_absent :
    (route : String) (ps : List IngressPath) → has_path route ps ≡ false → drop_path route ps ≡ ps
unfolding drop_path
drop_path_absent route [] h = refl
drop_path_absent route (p ∷ ps) h = ground (arith, drop_path_absent route ps)

all_lead-append :
    (route service : String) (ps : List IngressPath)
    → has_path route ps ≡ false
    → all_lead route service (ps ++ (record { path = route; service = service; port = 7681 } ∷ []))
      ≡ true
all_lead-append route service [] h = ground (arith, eq_iff route route, eq_iff service service)
all_lead-append route service (p ∷ ps) h = ground (arith, all_lead-append route service ps)

has_path-append :
    (route service : String) (ps : List IngressPath)
    → has_path route (ps ++ (record { path = route; service = service; port = 7681 } ∷ [])) ≡ true
has_path-append route service [] = ground (arith, eq_iff route route)
has_path-append route service (p ∷ ps) = ground (arith, has_path-append route service ps)

repoint-leads :
    (route service : String) (ps : List IngressPath)
    → (has_path route (repoint route service ps) ≡ has_path route ps)
      × (all_lead route service (repoint route service ps) ≡ true)
repoint-leads route service [] = (refl, refl)
repoint-leads route service (p ∷ ps) =
    let (a, b) = repoint-leads route service ps in
    (ground (arith, a), ground (arith, b, eq_iff service service))

-- After a shell's route is set, a path for it is there, and each path for it leads to its service.
pub put_path-leads :
    (route service : String) (ps : List IngressPath)
    → (has_path route (put_path route service ps) ≡ true)
      × (all_lead route service (put_path route service ps) ≡ true)
unfolding put_path
put_path-leads route service ps = (
  ground (arith, has_path-append route service ps, (repoint-leads route service ps).0),
  ground (arith, all_lead-append route service ps, (repoint-leads route service ps).1),
)

pub has_path-drop_path :
    (route : String) (ps : List IngressPath) → has_path route (drop_path route ps) ≡ false
unfolding drop_path
has_path-drop_path route [] = refl
has_path-drop_path route (p ∷ ps) = ground (arith, has_path-drop_path route ps)

-- Where a route is not there, setting it and removing it again leaves no path for it, and gives the
-- paths from before.
pub drop_path_undoes :
    (route service : String) (ps : List IngressPath)
    → has_path route ps ≡ false
    → (has_path route (drop_path route (put_path route service ps)) ≡ false)
      × (drop_path route (put_path route service ps) ≡ ps)
drop_path_undoes route service ps h = (
  has_path-drop_path route (put_path route service ps),
  rw (drop_path-put_path route service ps) (drop_path_absent route ps h),
)
