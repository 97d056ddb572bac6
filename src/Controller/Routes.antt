-- ===== src/Controller/Routes.antt =====
-- The routes of a shell in an ingress or a virtual service: `CreateIngressForCloudshell`,
-- `CreateVirtualServiceForCloudshell` and `removeCloudshellRoute` of
-- pkg/controllers/cloudshell_controller.go.
pub mod Keeping
use cloudtty.Base.{
  String, ◌<>◌, Bool, false, ◌||◌, List, [], ◌∷◌, ◌++◌, Option, none, some, if◌then◌else◌, ◌==◌,
}
use cloudtty.Base.Dict.{Dict, insert}
use cloudtty.Base.Result.{panic, failed, Result, ok, err, is_not_found}
use cloudtty.Objects.{
  Ingress, IngressPath, IngressConfig, VirtualService, VirtualServiceConfig, HttpRoute, UriMatch,
  prefix_uri, no_uri, CloudShell,
}
use cloudtty.Text.{is_empty, join}
use cloudtty.Cluster.{Env}
use cloudtty.Manifests.{
  ingress_tmpl_v1, ingress_data, virtual_service_v1_beta1, virtual_service_data,
}
use cloudtty.Cluster.Monad.{M, ◌>>=◌, ◌>>◌, pure, fail, attempt, call, from_result}
use cloudtty.WorkerPool.Keys.{worker_owner_label_key}
use cloudtty.WorkerPool.Creation.{parse_template, wrap}
use cloudtty.WorkerPool.Lending.{or_empty}
use cloudtty.Controller.Paths.{set_route_rule_path, ingress_namespaced_name, vs_namespaced_name}
use cloudtty.Controller.RouteLists.{put_path, drop_path, put_route, drop_route}
use cloudtty.Controller.Hosts.{validate_ingress_host}

module _ (E : Env) where
  -- The class, annotations and host that the template gets.
  unfoldable pub ingress_options : Option IngressConfig → Result (String × Option Dict × String)
  ingress_options none = ok ("", none, "")
  ingress_options (some config) =
      if is_empty config.host
      then ok (config.ingress_class_name, config.annotations, "")
      else elim (validate_ingress_host E config.host) [
        | [] ↦ ok (config.ingress_class_name, config.annotations, config.host)
        | e ∷ es ↦ err (
            failed
              ("invalid ingress host " <> (E.quote config.host <> (": " <> join "; " (e ∷ es)))))
      ]

  unfoldable pub make_ingress : String → CloudShell → M E (Unit {0})
  make_ingress service shell = do
    (class, annotations, host) ← from_result (ingress_options shell.spec.ingress_config)
    let name = ingress_namespaced_name shell
    text ← from_result (
        wrap "failed to parse cloudshell ingress manifest" (
          parse_template E ingress_tmpl_v1 (
            ingress_data name.name name.namespace class (set_route_rule_path shell) service
              annotations host)))
    ingress ← from_result (E.decode_ingress text)
    call (
        E.ingresses.create
          (record ingress { labels = some ((worker_owner_label_key, shell.name) ∷ []) }))
    pure tt

  -- `Rules[0].IngressRuleValue.HTTP.Paths`: without a rule, or with a nil pointer, it panics.
  unfoldable pub route_ingress :
      String → String → Ingress → List (Option (List IngressPath)) → M E (Unit {0})
  route_ingress route service ingress (some paths ∷ rules) = do
    call (
        E.ingresses.update (record ingress {
          rules = some (put_path route service paths) ∷ rules;
          annotations = some (
              insert "nginx.ingress.kubernetes.io/rewrite-target" "/"
                (or_empty ingress.annotations));
        }))
    pure tt
  route_ingress route service ingress _ = fail panic

  unfoldable pub put_ingress : String → CloudShell → Result Ingress → M E (Unit {0})
  put_ingress service shell (err e) = if is_not_found e then make_ingress service shell else fail e
  put_ingress service shell (ok ingress) =
      route_ingress (set_route_rule_path shell) service ingress ingress.rules

  unfoldable pub create_ingress_for_cloudshell : String → CloudShell → M E (Unit {0})
  create_ingress_for_cloudshell service shell = do
    let name = ingress_namespaced_name shell
    found ← attempt (call (E.ingresses.get name.namespace name.name))
    put_ingress service shell found

  unfoldable pub make_virtual_service : String → VirtualServiceConfig → CloudShell → M E (Unit {0})
  make_virtual_service service config shell = do
    let name = vs_namespaced_name shell
    text ← from_result (
        wrap ("failed to parse cloudshell [" <> (shell.name <> "] virtualservice")) (
          parse_template E virtual_service_v1_beta1 (
            virtual_service_data name.name name.namespace config.export_to config.gateway
              (set_route_rule_path shell) service)))
    decoded ← from_result (E.decode_virtual_service text)
    call (
        E.virtual_services.create
          (record decoded { labels = some ((worker_owner_label_key, shell.name) ∷ []) }))
    pure tt

  unfoldable pub service_host : String → CloudShell → String
  service_host service shell =
      service <> ("." <> ((vs_namespaced_name shell).namespace <> ".svc.cluster.local"))

  unfoldable pub put_virtual_service :
      String → VirtualServiceConfig → CloudShell → Result VirtualService → M E (Unit {0})
  put_virtual_service service config shell (err e) =
      if is_not_found e then make_virtual_service service config shell else fail e
  put_virtual_service service config shell (ok found) = do
    http ←
        from_result (put_route (set_route_rule_path shell) (service_host service shell) found.http)
    call (E.virtual_services.update (record found { http = http }))
    pure tt

  unfoldable pub virtual_service_with :
      String → CloudShell → Option VirtualServiceConfig → M E (Unit {0})
  virtual_service_with service shell none =
      fail (failed "unable create virtualservice, missing configuration options")
  virtual_service_with service shell (some config) = do
    let name = vs_namespaced_name shell
    found ← attempt (call (E.virtual_services.get name.namespace name.name))
    put_virtual_service service config shell found

  unfoldable pub create_virtual_service_for_cloudshell : String → CloudShell → M E (Unit {0})
  create_virtual_service_for_cloudshell service shell =
      virtual_service_with service shell shell.spec.virtual_service_config

  -- An ingress without a path is deleted.
  unfoldable pub store_paths :
      Ingress → List IngressPath → List (Option (List IngressPath)) → M E (Unit {0})
  store_paths ingress [] rules =
      call (E.ingresses.delete (record ingress { rules = some [] ∷ rules }))
  store_paths ingress (p ∷ ps) rules = do
    call (E.ingresses.update (record ingress { rules = some (p ∷ ps) ∷ rules }))
    pure tt

  unfoldable pub unroute_ingress :
      String → Ingress → List (Option (List IngressPath)) → M E (Unit {0})
  unroute_ingress route ingress (some paths ∷ rules) =
      store_paths ingress (drop_path route paths) rules
  unroute_ingress route ingress _ = fail panic

  unfoldable pub remove_ingress_route : String → Result Ingress → M E (Unit {0})
  remove_ingress_route route (err e) = if is_not_found e then pure tt else fail e
  remove_ingress_route route (ok ingress) = unroute_ingress route ingress ingress.rules

  -- A virtual service without a route is deleted.
  unfoldable pub store_routes : VirtualService → List HttpRoute → M E (Unit {0})
  store_routes found [] = call (E.virtual_services.delete found)
  store_routes found (r ∷ rs) = do
    call (E.virtual_services.update (record found { http = r ∷ rs }))
    pure tt

  unfoldable pub remove_virtual_route : String → Result VirtualService → M E (Unit {0})
  remove_virtual_route route (err e) = if is_not_found e then pure tt else fail e
  remove_virtual_route route (ok found) = store_routes found (drop_route route found.http)

  unfoldable pub remove_from_ingress : CloudShell → M E (Unit {0})
  remove_from_ingress shell = do
    let name = ingress_namespaced_name shell
    found ← attempt (call (E.ingresses.get name.namespace name.name))
    remove_ingress_route (set_route_rule_path shell) found

  unfoldable pub remove_from_virtual_service : CloudShell → M E (Unit {0})
  remove_from_virtual_service shell = do
    let name = vs_namespaced_name shell
    found ← attempt (call (E.virtual_services.get name.namespace name.name))
    remove_virtual_route (set_route_rule_path shell) found

  -- The modes "", ClusterIP and NodePort, like any other, have nothing to remove.
  unfoldable pub remove_cloudshell_route : CloudShell → M E (Unit {0})
  remove_cloudshell_route shell =
      if shell.spec.expose_mode == "Ingress"
      then remove_from_ingress shell
      else if shell.spec.expose_mode == "VirtualService"
      then remove_from_virtual_service shell
      else pure tt
