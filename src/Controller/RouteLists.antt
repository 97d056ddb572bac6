-- ===== src/Controller/RouteLists.antt =====
-- The loops over the paths of an ingress and the routes of a virtual service, of
-- `CreateIngressForCloudshell`, `CreateVirtualServiceForCloudshell` and `removeCloudshellRoute` in
-- pkg/controllers/cloudshell_controller.go.
pub mod IngressPaths
pub mod Apart
pub mod Virtual
use cloudtty.Base.{
  String, Bool, true, false, ◌||◌, List, [], ◌∷◌, ◌++◌, Option, none, some, if◌then◌else◌, ◌==◌,
}
use cloudtty.Base.Result.{Error, panic, Result, ok, err}
use cloudtty.Objects.{IngressPath, HttpRoute, UriMatch, prefix_uri, no_uri}

abbrev pub has_path : String → List IngressPath → Bool
has_path route [] = false
has_path route (p ∷ ps) = route == p.path || has_path route ps

-- Each path that is equal to the route gets the backend.
abbrev pub repoint : String → String → List IngressPath → List IngressPath
repoint route service [] = []
repoint route service (p ∷ ps) =
    let rest = repoint route service ps in
    if route == p.path then record p { service = service; port = 7681 } ∷ rest else p ∷ rest

unfoldable pub put_path : String → String → List IngressPath → List IngressPath
put_path route service paths =
    if has_path route paths
    then repoint route service paths
    else paths ++ (record { path = route; service = service; port = 7681 } ∷ [])

unfoldable pub drop_path : String → List IngressPath → List IngressPath
drop_path route [] = []
drop_path route (p ∷ ps) =
    let rest = drop_path route ps in if route == p.path then rest else p ∷ rest

-- The first match of the route is on this prefix.
abbrev pub is_match : String → List UriMatch → Bool
is_match route (prefix_uri prefix ∷ _) = route == prefix
is_match route _ = false

-- `Route[0].Destination.Host = host`
unfoldable pub set_host : String → HttpRoute → Result HttpRoute
set_host host r = elim r.destinations [
  | [] ↦ err panic
  | none ∷ _ ↦ err panic
  | some _ ∷ ds ↦ ok (record r { destinations = some host ∷ ds })
]

abbrev pub cons_result : HttpRoute → Result (List HttpRoute) → Result (List HttpRoute)
cons_result r (ok rs) = ok (r ∷ rs)
cons_result r (err e) = err e

abbrev pub chain {ℓ} : {A B : Type ℓ} → Result A → (A → Result B) → Result B
chain (ok a) f = f a
chain (err e) f = err e

-- The loop that updates the routes of a prefix.
unfoldable pub repoint_routes : String → String → List HttpRoute → Result (List HttpRoute)
repoint_routes route host [] = ok []
repoint_routes route host (r ∷ rs) =
    let rest = repoint_routes route host rs in
    if is_match route r.matches
    then chain (set_host host r) (λ updated. cons_result updated rest)
    else cons_result r rest

abbrev pub has_route : String → List HttpRoute → Bool
has_route route [] = false
has_route route (r ∷ rs) = is_match route r.matches || has_route route rs

-- `Match[0].Uri.MatchType = ...`
unfoldable pub set_match : String → HttpRoute → Result HttpRoute
set_match route r = elim r.matches [
  | [] ↦ err panic
  | no_uri ∷ _ ↦ err panic
  | _ ∷ ms ↦ ok (record r { matches = prefix_uri route ∷ ms })
]

-- A copy of the first route, for another prefix and host.
unfoldable pub copy_first : String → String → List HttpRoute → Result HttpRoute
copy_first route host [] = err panic
copy_first route host (r ∷ _) = chain (set_match route r) (set_host host)

unfoldable pub put_route : String → String → List HttpRoute → Result (List HttpRoute)
put_route route host http =
    if has_route route http
    then repoint_routes route host http
    else chain (copy_first route host http) (λ r. ok (http ++ (r ∷ [])))

unfoldable pub drop_route : String → List HttpRoute → List HttpRoute
drop_route route [] = []
drop_route route (r ∷ rs) =
    let rest = drop_route route rs in if is_match route r.matches then rest else r ∷ rest
