-- ===== src/Tests/Parts.antt =====
-- The theorems on routes, hosts, labels, settings and times, at concrete values.
use cloudtty.Base.{◌≡◌, ◌↔◌, refl, ◌+◌, ◌*◌, ◌<◌, true, false, List, [], ◌∷◌, some, arith, eq_iff}
use cloudtty.Base.Int.{pos}
use cloudtty.Objects.{IngressPath, CloudShell, HttpRoute, prefix_uri}
use cloudtty.Cluster.Monad.{string_item, request_item}
use cloudtty.Controller.RouteLists.{put_route, has_path, put_path, drop_path}
use cloudtty.Controller.RouteLists.IngressPaths.{drop_path_undoes}
use cloudtty.Controller.RouteLists.Apart.{leads, both_routed, routes_apart}
use cloudtty.Controller.Paths.{set_route_rule_path}
use cloudtty.Text.{contains_char}
use cloudtty.Tests.Shells.{shell}
use cloudtty.Controller.Sync.{time_left, is_over}
use cloudtty.Controller.Sync.Ttl.{time_left_exact}
use cloudtty.Controller.RouteLists.Virtual.{IsPut, put_route-IsPut}

abbrev one_path : List IngressPath
one_path = record { path = "/a"; service = "w0"; port = 7681 } ∷ []

-- Two shells in one ingress.
abbrev mine : CloudShell
mine = record shell {
  spec = record (shell.spec) { path_prefix = "/team/"; expose_mode = "Ingress" };
}

abbrev yours : CloudShell
yours = record mine { name = "yours" }

routes_apart_example :
    (leads (set_route_rule_path mine) "w1" (both_routed mine yours "w1" "w2" one_path) ≡ true)
    × (leads (set_route_rule_path yours) "w2" (both_routed mine yours "w1" "w2" one_path) ≡ true)
    × (leads
          (set_route_rule_path mine)
          "w1"
          (drop_path (set_route_rule_path yours) (both_routed mine yours "w1" "w2" one_path))
        ≡ true)
    × (has_path
          (set_route_rule_path yours)
          (drop_path (set_route_rule_path yours) (both_routed mine yours "w1" "w2" one_path))
        ≡ false)
    × (leads
          (set_route_rule_path yours)
          "w2"
          (drop_path (set_route_rule_path mine) (both_routed mine yours "w1" "w2" one_path))
        ≡ true)
    × (has_path
          (set_route_rule_path mine)
          (drop_path (set_route_rule_path mine) (both_routed mine yours "w1" "w2" one_path))
        ≡ false)
unfolding contains_char
routes_apart_example =
    routes_apart mine yours "w1" "w2" one_path refl refl refl
      (λ e. ground (arith, eq_iff "shell" "yours"))

drop_path_undoes_example :
    (has_path "/b" (drop_path "/b" (put_path "/b" "w1" one_path)) ≡ false)
    × (drop_path "/b" (put_path "/b" "w1" one_path) ≡ one_path)
drop_path_undoes_example = drop_path_undoes "/b" "w1" one_path refl

time_left_exact_example :
    (is_over (some (time_left 5 (pos 60) 60000000006)) ≡ true) ↔ (5 + 60 * 1000000000 < 60000000006)
time_left_exact_example = time_left_exact 5 60 60000000006 (omega arith)

abbrev one_route : List HttpRoute
one_route =
    record {
      matches = prefix_uri "/a" ∷ [];
      destinations = some "w0.default.svc.cluster.local" ∷ [];
    }
    ∷ []

put_route-IsPut_example :
    IsPut "/b" "w1.default.svc.cluster.local" one_route
      (put_route "/b" "w1.default.svc.cluster.local" one_route)
put_route-IsPut_example = put_route-IsPut "/b" "w1.default.svc.cluster.local" one_route
