-- ===== src/Controller/RouteLists/Virtual.antt =====
-- What `CreateVirtualServiceForCloudshell` and `removeCloudshellRoute` do to the routes of a virtual
-- service.
use cloudtty.Base.{
  String, Bool, true, false, ◌&&◌, List, [], ◌∷◌, ◌++◌, Option, none, some, if◌then◌else◌, ◌==◌,
  ◌≡◌, ◌∙◌, sym, refl, arith, eq_iff, Bool-cases, inl, inr,
}
use cloudtty.Base.Result.{panic, Result, ok, err}
use cloudtty.Objects.{HttpRoute, UriMatch, prefix_uri, no_uri, other_uri}
use cloudtty.Controller.RouteLists.{
  is_match, set_host, cons_result, chain, repoint_routes, has_route, set_match, copy_first,
  put_route, drop_route,
}

-- The first destination of the route, which the source takes without a check, is there.
abbrev pub has_first : List (Option String) → Bool
has_first (some _ ∷ _) = true
has_first _ = false

-- The first destination has this host.
abbrev pub is_first : String → List (Option String) → Bool
is_first host (some d ∷ _) = host == d
is_first host _ = false

-- The first match, whose URI the source takes without a check, has one.
abbrev pub has_uri : List UriMatch → Bool
has_uri [] = false
has_uri (no_uri ∷ _) = false
has_uri _ = true

-- Every route of the prefix has a first destination.
abbrev pub all_first : String → List HttpRoute → Bool
all_first route [] = true
all_first route (r ∷ rs) =
    (if is_match route r.matches then has_first r.destinations else true) && all_first route rs

-- Every route of the prefix leads to the host.
abbrev pub all_lead : String → String → List HttpRoute → Bool
all_lead route host [] = true
all_lead route host (r ∷ rs) =
    (if is_match route r.matches then is_first host r.destinations else true)
    && all_lead route host rs

-- The first route can be copied for another prefix and host.
abbrev pub can_copy : List HttpRoute → Bool
can_copy [] = false
can_copy (r ∷ _) = has_uri r.matches && has_first r.destinations

-- Of the new first destination of a route.
abbrev IsHosted : String → HttpRoute → Result HttpRoute → Type 0
IsHosted host r (ok u) =
    (u.matches ≡ r.matches)
    × (is_first host u.destinations ≡ true)
    × (has_first r.destinations ≡ true)
IsHosted host r (err e) = (e ≡ panic) × (has_first r.destinations ≡ false)

set_host-IsHosted : (host : String) (r : HttpRoute) → IsHosted host r (set_host host r)
unfolding set_host
set_host-IsHosted host r = by_destinations r.destinations refl
  where
    by_destinations :
        (ds : List (Option String)) → r.destinations ≡ ds → IsHosted host r (set_host host r)
    by_destinations [] h = rw h (refl, refl)
    by_destinations (none ∷ ds) h = rw h (refl, refl)
    by_destinations (some d ∷ ds) h = rw h (refl, ((eq_iff host host).1 refl), refl)

-- Of a result of the loop: the routes of the prefix lead to the host, and those of other prefixes are
-- as in the list; a panic is from a route of the prefix without a first destination.
abbrev IsRepointed : String → String → List HttpRoute → Result (List HttpRoute) → Type 0
IsRepointed route host http (ok put) =
    (all_first route http ≡ true)
    × (has_route route put ≡ has_route route http)
    × (all_lead route host put ≡ true)
    × (drop_route route put ≡ drop_route route http)
IsRepointed route host http (err e) = (e ≡ panic) × (all_first route http ≡ false)

updated-IsRepointed :
    (route host : String) (r : HttpRoute) (rs : List HttpRoute) (s : Result HttpRoute)
    (rest : Result (List HttpRoute))
    → is_match route r.matches ≡ true
    → IsHosted host r s
    → IsRepointed route host rs rest
    → IsRepointed route host (r ∷ rs) (chain s (λ u. cons_result u rest))
unfolding drop_route
updated-IsRepointed route host r rs (err e) rest m (h, no_first) k = (h, rw (m, no_first) refl)
updated-IsRepointed route host r rs (ok u) (err e) m (h, to, first) (k, bad) =
    (k, rw (m, first, bad) refl)
updated-IsRepointed route host r rs (ok u) (ok put) m (h, to, first) (can, a, lead, b) =
    (rw (m, first, can) refl, rw (h, m) refl, rw (h, m, to, lead) refl, rw (h, m) b)

kept-IsRepointed :
    (route host : String) (r : HttpRoute) (rs : List HttpRoute) (rest : Result (List HttpRoute))
    → is_match route r.matches ≡ false
    → IsRepointed route host rs rest
    → IsRepointed route host (r ∷ rs) (cons_result r rest)
unfolding drop_route
kept-IsRepointed route host r rs (err e) m (k, bad) = (k, rw (m, bad) refl)
kept-IsRepointed route host r rs (ok put) m (can, a, lead, b) =
    (rw (m, can) refl, rw m a, rw (m, lead) refl, rw (m, b) refl)

repoint-IsRepointed :
    (route host : String) (http : List HttpRoute)
    → IsRepointed route host http (repoint_routes route host http)
unfolding repoint_routes
repoint-IsRepointed route host [] = (refl, refl, refl, refl)
repoint-IsRepointed route host (r ∷ rs) =
    let rest = repoint-IsRepointed route host rs in
    elim (Bool-cases (is_match route r.matches)) [
      | inl m ↦ rw m (updated-IsRepointed route host r rs _ _ m (set_host-IsHosted host r) rest)
      | inr m ↦ rw m (kept-IsRepointed route host r rs _ m rest)
    ]

-- Of a route's new prefix.
abbrev IsPrefixed : String → HttpRoute → Result HttpRoute → Type 0
IsPrefixed route r (ok u) =
    (is_match route u.matches ≡ true)
    × (u.destinations ≡ r.destinations)
    × (has_uri r.matches ≡ true)
IsPrefixed route r (err e) = (e ≡ panic) × (has_uri r.matches ≡ false)

set_match-IsPrefixed : (route : String) (r : HttpRoute) → IsPrefixed route r (set_match route r)
unfolding set_match
set_match-IsPrefixed route r = by_matches r.matches refl
  where
    by_matches : (ms : List UriMatch) → r.matches ≡ ms → IsPrefixed route r (set_match route r)
    by_matches [] h = rw h (refl, refl)
    by_matches (no_uri ∷ ms) h = rw h (refl, refl)
    by_matches (other_uri ∷ ms) h = rw h ((eq_iff route route).1 refl, refl, refl)
    by_matches (prefix_uri p ∷ ms) h = rw h ((eq_iff route route).1 refl, refl, refl)

-- Of the copy of the first route.
abbrev IsCopied : String → String → List HttpRoute → Result HttpRoute → Type 0
IsCopied route host http (ok u) =
    (is_match route u.matches ≡ true)
    × (is_first host u.destinations ≡ true)
    × (can_copy http ≡ true)
IsCopied route host http (err e) = (e ≡ panic) × (can_copy http ≡ false)

hosted-IsCopied :
    (route host : String) (r u : HttpRoute) (rs : List HttpRoute) (s : Result HttpRoute)
    → IsPrefixed route r (ok u)
    → IsHosted host u s
    → IsCopied route host (r ∷ rs) s
hosted-IsCopied route host r u rs (ok v) (m, same, uri) (h, to, first) =
    (rw h m, to, rw (uri, sym same) first)
hosted-IsCopied route host r u rs (err e) (m, same, uri) (h, bad) = (h, rw (uri, sym same) bad)

chained-IsCopied :
    (route host : String) (r : HttpRoute) (rs : List HttpRoute) (s : Result HttpRoute)
    → IsPrefixed route r s
    → IsCopied route host (r ∷ rs) (chain s (set_host host))
chained-IsCopied route host r rs (ok u) p =
    hosted-IsCopied route host r u rs _ p (set_host-IsHosted host u)
chained-IsCopied route host r rs (err e) (h, bad) = (h, rw bad refl)

copy_first-IsCopied :
    (route host : String) (http : List HttpRoute)
    → IsCopied route host http (copy_first route host http)
unfolding copy_first
copy_first-IsCopied route host [] = (refl, refl)
copy_first-IsCopied route host (r ∷ rs) =
    chained-IsCopied route host r rs _ (set_match-IsPrefixed route r)

-- Nothing that the source takes without a check is missing.
abbrev pub can_put : String → List HttpRoute → Bool
can_put route http = if has_route route http then all_first route http else can_copy http

-- The result has the route, which leads to the host, and the other routes of the list; or what the
-- source takes without a check is missing, and there is a panic.
abbrev pub IsPut : String → String → List HttpRoute → Result (List HttpRoute) → Type 0
IsPut route host http (ok put) =
    (can_put route http ≡ true)
    × (has_route route put ≡ true)
    × (all_lead route host put ≡ true)
    × (drop_route route put ≡ drop_route route http)
IsPut route host http (err e) = (e ≡ panic) × (can_put route http ≡ false)

-- A route at the end of a list that has none of the prefix.
append_new :
    (route host : String) (http : List HttpRoute) (r : HttpRoute)
    → is_match route r.matches ≡ true
    → is_first host r.destinations ≡ true
    → has_route route http ≡ false
    → (has_route route (http ++ (r ∷ [])) ≡ true)
      × (all_lead route host (http ++ (r ∷ [])) ≡ true)
      × (drop_route route (http ++ (r ∷ [])) ≡ drop_route route http)
unfolding drop_route
append_new route host [] r m to new = (rw m refl, rw (m, to) refl, rw m refl)
append_new route host (x ∷ http) r m to new = elim (Bool-cases (is_match route x.matches)) [
  | inl here ↦ ground (arith, here, new)
  | inr other ↦
      let (there, lead, same) = append_new route host http r m to (ground (arith, other, new)) in
      (rw other there, rw (other, lead) refl, rw (other, same) refl)
]

appended-IsPut :
    (route host : String) (http : List HttpRoute) (s : Result HttpRoute)
    → has_route route http ≡ false
    → IsCopied route host http s
    → IsPut route host http (chain s (λ r. ok (http ++ (r ∷ []))))
appended-IsPut route host http (ok r) new (m, to, can) =
    let (there, lead, same) = append_new route host http r m to new in
    (rw new can, there, lead, same)
appended-IsPut route host http (err e) new (h, bad) = (h, rw new bad)

there-IsPut :
    (route host : String) (http : List HttpRoute) (s : Result (List HttpRoute))
    → has_route route http ≡ true
    → IsRepointed route host http s
    → IsPut route host http s
there-IsPut route host http (ok put) there (can, a, lead, b) = (rw there can, a ∙ there, lead, b)
there-IsPut route host http (err e) there (h, bad) = (h, rw there bad)

-- Setting a shell's route in a virtual service panics exactly when the list has a route of the prefix
-- without a first destination, or has no route of the prefix and no first route with a URI and a
-- destination to copy; else it gives a list that has a route of the prefix, in which every route of
-- the prefix leads to the host, and which has, in their order, all routes of other prefixes.
pub put_route-IsPut :
    (route host : String) (http : List HttpRoute)
    → IsPut route host http (put_route route host http)
unfolding put_route
put_route-IsPut route host http = elim (Bool-cases (has_route route http)) [
  | inl there ↦ rw there (there-IsPut route host http _ there (repoint-IsRepointed route host http))
  | inr absent ↦
      rw absent (appended-IsPut route host http _ absent (copy_first-IsCopied route host http))
]
