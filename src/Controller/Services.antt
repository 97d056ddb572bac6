-- ===== src/Controller/Services.antt =====
-- `CreateCloudShellService`, the controller's own `CreateServiceFor`, and `CreateRouteRule` of
-- pkg/controllers/cloudshell_controller.go.
use cloudtty.Base.{ℕ, String, ◌<>◌, ◌||◌, List, [], ◌∷◌, some, if◌then◌else◌, ◌==◌, nat_eq}
use cloudtty.Base.Int.{pos}
use cloudtty.Objects.{CloudShell, Pod, Service}
use cloudtty.Text.Decimal.{show_int}
use cloudtty.Cluster.{Env}
use cloudtty.Manifests.{service_tmpl_v1, service_data}
use cloudtty.Cluster.Monad.{M, ◌>>=◌, ◌>>◌, pure, attempt, from_result}
use cloudtty.WorkerPool.Keys.{worker_owner_label_key}
use cloudtty.WorkerPool.Creation.{parse_template, wrap, create_or_update_service}
use cloudtty.Controller.Paths.{set_route_rule_path}
use cloudtty.Controller.Nodes.{get_master_node_ip}
use cloudtty.Controller.Routes.{
  create_ingress_for_cloudshell, create_virtual_service_for_cloudshell,
}

-- The first port that is not 0, or 0.
unfoldable pub node_port : List ℕ → ℕ
node_port [] = 0
node_port (p ∷ ps) = if nat_eq p 0 then node_port ps else p

module _ (E : Env) where
  unfoldable pub create_cloud_shell_service : CloudShell → Pod → M E Service
  create_cloud_shell_service shell worker = do
    text ← from_result (
        wrap "failed to parse cloudshell service manifest" (
          parse_template E service_tmpl_v1
            (service_data ("cloudshell-" <> shell.name) worker.namespace worker.name "NodePort")))
    svc ← from_result (E.decode_service text)
    owned ← from_result (
        E.set_controller_reference shell.name
          (record svc { labels = some ((worker_owner_label_key, shell.name) ∷ []) }))
    create_or_update_service E owned

  -- The controller's `CreateServiceFor`, which nothing calls.
  unfoldable pub controller_create_service_for : Pod → M E (Unit {0})
  controller_create_service_for worker = do
    text ← from_result (
        wrap "failed to parse service manifest" (
          parse_template E service_tmpl_v1
            (service_data worker.name worker.namespace worker.name "ClusterIP")))
    svc ← from_result (E.decode_service text)
    owned ← from_result (
        E.set_controller_reference worker.name
          (record svc { labels = some ((worker_owner_label_key, worker.name) ∷ []) }))
    create_or_update_service E owned
    pure tt

  unfoldable pub node_port_rule : CloudShell → Pod → M E String
  node_port_rule shell worker = do
    host ← get_master_node_ip E
    created ← attempt (create_cloud_shell_service shell worker)
    service ← from_result (wrap "failed to create service for cloudshell" created)
    pure (host <> (":" <> show_int (pos (node_port service.ports))))

  unfoldable pub ingress_rule : CloudShell → Pod → M E String
  ingress_rule shell worker = do
    create_ingress_for_cloudshell E worker.name shell
    pure (set_route_rule_path shell)

  unfoldable pub virtual_service_rule : CloudShell → Pod → M E String
  virtual_service_rule shell worker = do
    create_virtual_service_for_cloudshell E worker.name shell
    pure (set_route_rule_path shell)

  -- Any other mode, also ClusterIP, gets the empty URL.
  unfoldable pub create_route_rule : CloudShell → Pod → M E String
  create_route_rule shell worker =
      if shell.spec.expose_mode == "" || shell.spec.expose_mode == "NodePort"
      then node_port_rule shell worker
      else if shell.spec.expose_mode == "Ingress"
      then ingress_rule shell worker
      else if shell.spec.expose_mode == "VirtualService"
      then virtual_service_rule shell worker
      else pure ""
