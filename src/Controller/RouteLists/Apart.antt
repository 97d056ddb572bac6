-- ===== src/Controller/RouteLists/Apart.antt =====
-- The routes of two shells in one ingress (`SetRouteRulePath`, and the loops over the paths).
use cloudtty.Base.{
  String, Bool, true, false, ◌&&◌, List, [], ◌∷◌, ◌++◌, some, ◌≡◌, ◌≢◌, refl, sym, ◌∙◌, arith,
  eq_iff,
}
use cloudtty.Objects.{IngressPath, IngressConfig, CloudShell}
use cloudtty.Text.{is_empty, contains_char}
use cloudtty.Controller.Paths.{set_route_rule_path, ingress_namespaced_name}
use cloudtty.Controller.Paths.Apart.{set_route_rule_path-apart}
use cloudtty.Controller.RouteLists.{has_path, repoint, put_path, drop_path}
use cloudtty.Controller.RouteLists.IngressPaths.{all_lead, put_path-leads, has_path-drop_path}

repoint-other :
    (route other service to : String) (ps : List IngressPath)
    → route ≢ other
    → (has_path route (repoint other to ps) ≡ has_path route ps)
      × (all_lead route service (repoint other to ps) ≡ all_lead route service ps)
repoint-other route other service to [] apart = (refl, refl)
repoint-other route other service to (p ∷ ps) apart =
    let (there, lead) = repoint-other route other service to ps apart in
    (
      ground (arith, there, eq_iff other p.path, eq_iff route p.path),
      ground (arith, lead, eq_iff other p.path, eq_iff route p.path),
    )

append-other :
    (route other service to : String) (ps : List IngressPath)
    → route ≢ other
    → (has_path route (ps ++ (record { path = other; service = to; port = 7681 } ∷ []))
        ≡ has_path route ps)
      × (all_lead route service (ps ++ (record { path = other; service = to; port = 7681 } ∷ []))
          ≡ all_lead route service ps)
append-other route other service to [] apart =
    (ground (arith, eq_iff route other), ground (arith, eq_iff route other))
append-other route other service to (p ∷ ps) apart =
    let (there, lead) = append-other route other service to ps apart in
    (ground (arith, there), ground (arith, lead))

-- Another route.
put_path-other :
    (route other service to : String) (ps : List IngressPath)
    → route ≢ other
    → (has_path route (put_path other to ps) ≡ has_path route ps)
      × (all_lead route service (put_path other to ps) ≡ all_lead route service ps)
unfolding put_path
put_path-other route other service to ps apart = (
  ground (
    arith,
    (append-other route other service to ps apart).0,
    (repoint-other route other service to ps apart).0,
  ),
  ground (
    arith,
    (append-other route other service to ps apart).1,
    (repoint-other route other service to ps apart).1,
  ),
)

drop_path-other :
    (route other service : String) (ps : List IngressPath)
    → route ≢ other
    → (has_path route (drop_path other ps) ≡ has_path route ps)
      × (all_lead route service (drop_path other ps) ≡ all_lead route service ps)
unfolding drop_path
drop_path-other route other service [] apart = (refl, refl)
drop_path-other route other service (p ∷ ps) apart =
    let (there, lead) = drop_path-other route other service ps apart in
    (
      ground (arith, there, eq_iff other p.path, eq_iff route p.path),
      ground (arith, lead, eq_iff other p.path, eq_iff route p.path),
    )

-- The route leads to the service, and to no other one.
abbrev pub leads : String → String → List IngressPath → Bool
leads route service ps = has_path route ps && all_lead route service ps

and_true : (p q : Bool) → p ≡ true → q ≡ true → p && q ≡ true
and_true p q h k = ground arith

-- The paths when both shells have set their routes, the second one last.
abbrev pub both_routed :
    CloudShell → CloudShell → String → String → List IngressPath → List IngressPath
both_routed a b to_a to_b ps =
    put_path (set_route_rule_path b) to_b (put_path (set_route_rule_path a) to_a ps)

-- Two shells with the same path prefix and different names share an ingress: when both have set their
-- routes, each one's route leads to its own service, in either order of setting them; and when the
-- route of one is removed, it is gone, and the other's still leads to its service. The names are
-- assumed to have no slash.
pub routes_apart :
    (a b : CloudShell) (to_a to_b : String) (ps : List IngressPath)
    → contains_char b'/' a.name ≡ false
    → contains_char b'/' b.name ≡ false
    → a.spec.path_prefix ≡ b.spec.path_prefix
    → a.name ≢ b.name
    → (leads (set_route_rule_path a) to_a (both_routed a b to_a to_b ps) ≡ true)
      × (leads (set_route_rule_path b) to_b (both_routed a b to_a to_b ps) ≡ true)
      × (leads
            (set_route_rule_path a)
            to_a
            (drop_path (set_route_rule_path b) (both_routed a b to_a to_b ps))
          ≡ true)
      × (has_path
            (set_route_rule_path b)
            (drop_path (set_route_rule_path b) (both_routed a b to_a to_b ps))
          ≡ false)
      × (leads
            (set_route_rule_path b)
            to_b
            (drop_path (set_route_rule_path a) (both_routed a b to_a to_b ps))
          ≡ true)
      × (has_path
            (set_route_rule_path a)
            (drop_path (set_route_rule_path a) (both_routed a b to_a to_b ps))
          ≡ false)
routes_apart a b to_a to_b ps ha hb same apart =
    let ra = set_route_rule_path a in
    let rb = set_route_rule_path b in
    let both = put_path rb to_b (put_path ra to_a ps) in
    let ne = set_route_rule_path-apart a b ha hb same apart in
    let (kept, still) = put_path-other ra rb to_a to_b (put_path ra to_a ps) ne in
    let (there, lead) = put_path-leads ra to_a ps in
    let (there_b, lead_b) = put_path-leads rb to_b (put_path ra to_a ps) in
    let (kept_a, still_a) = drop_path-other ra rb to_a both ne in
    let (kept_b, still_b) = drop_path-other rb ra to_b both (λ e. ne (sym e)) in
    let at_a = kept ∙ there in
    let led_a = still ∙ lead in
    (
      and_true _ _ at_a led_a,
      and_true _ _ there_b lead_b,
      and_true _ _ (kept_a ∙ at_a) (still_a ∙ led_a),
      has_path-drop_path rb both,
      and_true _ _ (kept_b ∙ there_b) (still_b ∙ lead_b),
      has_path-drop_path ra both,
    )

-- Two shells with the same name, path prefix and path suffix, whose configurations name one ingress,
-- do not: they have one route, though they may be of different namespaces. The second one's route
-- takes the first one's place, and when the second one's is removed, the first has none.
pub routes_collide :
    (a b : CloudShell) (config : IngressConfig) (to_a to_b : String) (ps : List IngressPath)
    → a.name ≡ b.name
    → a.spec.path_prefix ≡ b.spec.path_prefix
    → a.spec.path_suffix ≡ b.spec.path_suffix
    → a.spec.ingress_config ≡ some config
    → b.spec.ingress_config ≡ some config
    → is_empty config.namespace ≡ false
    → (ingress_namespaced_name a ≡ ingress_namespaced_name b)
      × (leads (set_route_rule_path a) to_b (both_routed a b to_a to_b ps) ≡ true)
      × (has_path
            (set_route_rule_path a)
            (drop_path (set_route_rule_path b) (both_routed a b to_a to_b ps))
          ≡ false)
unfolding ingress_namespaced_name set_route_rule_path
routes_collide a b config to_a to_b ps names prefixes suffixes at_a at_b set =
    let ra = set_route_rule_path a in
    let rb = set_route_rule_path b in
    let (there, lead) = put_path-leads rb to_b (put_path rb to_a ps) in
    let one : ra ≡ rb = rw (names, prefixes, suffixes) refl in
    (
      rw (at_a, at_b, set) refl,
      rw one (and_true _ _ there lead),
      rw one (has_path-drop_path rb (put_path rb to_b (put_path rb to_a ps))),
    )
