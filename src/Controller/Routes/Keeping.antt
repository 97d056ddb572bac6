-- ===== src/Controller/Routes/Keeping.antt =====
-- Setting and removing routes keeps the invariant of the pool's two queues.
use cloudtty.Base.{String, List, [], ◌∷◌, Option, none, some}
use cloudtty.Base.Result.{Result, ok, err}
use cloudtty.Objects.{
  CloudShell, Ingress, IngressPath, VirtualService, VirtualServiceConfig, HttpRoute,
}
use cloudtty.Cluster.{Env}
use cloudtty.Cluster.Monad.{string_item, request_item}
use cloudtty.Cluster.Monad.Keeps.{Keeps}
use cloudtty.WorkerPool.Invariant.Rules.{QueuesInv, queue_rules}
use cloudtty.Controller.Routes.{
  make_ingress, route_ingress, put_ingress, create_ingress_for_cloudshell, make_virtual_service,
  put_virtual_service, virtual_service_with, store_paths, unroute_ingress, remove_ingress_route,
  store_routes, remove_virtual_route, remove_from_ingress, remove_from_virtual_service,
  remove_cloudshell_route,
}

module _ (E : Env) where
  make_ingress-Keeps :
      (service : String) (shell : CloudShell) → Keeps QueuesInv (make_ingress E service shell)
  unfolding make_ingress
  make_ingress-Keeps service shell = search queue_rules depth 9

  route_ingress-Keeps :
      (route service : String) (ingress : Ingress) (rules : List (Option (List IngressPath)))
      → Keeps QueuesInv (route_ingress E route service ingress rules)
  unfolding route_ingress
  route_ingress-Keeps route service ingress (some paths ∷ rules) = search queue_rules
  route_ingress-Keeps route service ingress (none ∷ rules) = search queue_rules
  route_ingress-Keeps route service ingress [] = search queue_rules

  put_ingress-Keeps :
      (service : String) (shell : CloudShell) (r : Result Ingress)
      → Keeps QueuesInv (put_ingress E service shell r)
  unfolding put_ingress
  put_ingress-Keeps service shell (err e) = search (queue_rules, make_ingress-Keeps)
  put_ingress-Keeps service shell (ok ingress) = route_ingress-Keeps _ service ingress _

  pub create_ingress-Keeps :
      (service : String) (shell : CloudShell)
      → Keeps QueuesInv (create_ingress_for_cloudshell E service shell)
  unfolding create_ingress_for_cloudshell
  create_ingress-Keeps service shell = search (queue_rules, put_ingress-Keeps)

  make_virtual_service-Keeps :
      (service : String) (config : VirtualServiceConfig) (shell : CloudShell)
      → Keeps QueuesInv (make_virtual_service E service config shell)
  unfolding make_virtual_service
  make_virtual_service-Keeps service config shell = search queue_rules depth 9

  put_virtual_service-Keeps :
      (service : String) (config : VirtualServiceConfig) (shell : CloudShell)
      (r : Result VirtualService)
      → Keeps QueuesInv (put_virtual_service E service config shell r)
  unfolding put_virtual_service
  put_virtual_service-Keeps service config shell (err e) =
      search (queue_rules, make_virtual_service-Keeps)
  put_virtual_service-Keeps service config shell (ok found) = search queue_rules depth 7

  pub virtual_service_with-Keeps :
      (service : String) (shell : CloudShell) (config : Option VirtualServiceConfig)
      → Keeps QueuesInv (virtual_service_with E service shell config)
  unfolding virtual_service_with
  virtual_service_with-Keeps service shell none = search queue_rules
  virtual_service_with-Keeps service shell (some config) =
      search (queue_rules, put_virtual_service-Keeps)

  store_paths-Keeps :
      (ingress : Ingress) (paths : List IngressPath) (rules : List (Option (List IngressPath)))
      → Keeps QueuesInv (store_paths E ingress paths rules)
  unfolding store_paths
  store_paths-Keeps ingress [] rules = search queue_rules
  store_paths-Keeps ingress (_ ∷ _) rules = search queue_rules

  unroute_ingress-Keeps :
      (route : String) (ingress : Ingress) (rules : List (Option (List IngressPath)))
      → Keeps QueuesInv (unroute_ingress E route ingress rules)
  unfolding unroute_ingress
  unroute_ingress-Keeps route ingress (some paths ∷ rules) = store_paths-Keeps ingress _ rules
  unroute_ingress-Keeps route ingress (none ∷ rules) = search queue_rules
  unroute_ingress-Keeps route ingress [] = search queue_rules

  remove_ingress_route-Keeps :
      (route : String) (r : Result Ingress) → Keeps QueuesInv (remove_ingress_route E route r)
  unfolding remove_ingress_route
  remove_ingress_route-Keeps route (err e) = search queue_rules
  remove_ingress_route-Keeps route (ok ingress) = unroute_ingress-Keeps route ingress _

  store_routes-Keeps :
      (found : VirtualService) (http : List HttpRoute) → Keeps QueuesInv (store_routes E found http)
  unfolding store_routes
  store_routes-Keeps found [] = search queue_rules
  store_routes-Keeps found (_ ∷ _) = search queue_rules

  remove_virtual_route-Keeps :
      (route : String) (r : Result VirtualService)
      → Keeps QueuesInv (remove_virtual_route E route r)
  unfolding remove_virtual_route
  remove_virtual_route-Keeps route (err e) = search queue_rules
  remove_virtual_route-Keeps route (ok found) = store_routes-Keeps found _

  pub remove_route-Keeps : (shell : CloudShell) → Keeps QueuesInv (remove_cloudshell_route E shell)
  unfolding remove_cloudshell_route remove_from_ingress remove_from_virtual_service
  remove_route-Keeps shell =
      search (queue_rules, remove_ingress_route-Keeps, remove_virtual_route-Keeps) depth 8
