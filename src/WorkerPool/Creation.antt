-- ===== src/WorkerPool/Creation.antt =====
-- `createWorker`, `CreateServiceFor` and `deleteWorker` of pkg/workerpool/worker_pool.go, with
-- pkg/utils/service.go and the template and JSON helpers of pkg/utils/util.go.
use cloudtty.Base.{String, ◌<>◌, [], ◌∷◌, some, if◌then◌else◌}
use cloudtty.Base.Dict.{Dict}
use cloudtty.Base.Result.{wrapped, Result, ok, err, is_not_found}
use cloudtty.Objects.{Pod, Service}
use cloudtty.Cluster.{Env, Fields}
use cloudtty.Manifests.{pod_tmpl_v1, service_tmpl_v1, pod_data, service_data}
use cloudtty.Cluster.Monad.{Request, M, ◌>>=◌, ◌>>◌, pure, fail, from_result, attempt, call, query}
use cloudtty.WorkerPool.Keys.{
  worker_owner_label_key, worker_request_label_key, worker_name_label_key, controller_finalizer,
}

-- `errors.Wrap` and the `%v` of an error in a message.
abbrev pub wrap {ℓ} : {A : Type ℓ} → String → Result A → Result A
wrap message (ok a) = ok a
wrap message (err e) = err (wrapped message e)

module _ (E : Env) where
  unfoldable pub parse_template : String → Fields → Result String
  parse_template template fields = elim (E.template_parse template) [
    | err e ↦ err (wrapped "error when parsing template" e)
    | ok parsed ↦ wrap "error when executing template" (E.template_execute parsed fields)
  ]

  -- `JSONStringToMap`
  unfoldable pub json_string_to_map : String → Result Dict
  json_string_to_map text = E.json_unmarshal text

  -- `MapToJSONString`
  unfoldable pub map_to_json_string : Dict → Result String
  map_to_json_string m = E.json_marshal m

  unfoldable pub write_service : Service → Result Service → M E Service
  write_service service (err e) =
      if is_not_found e then call (E.services.create service) else fail e
  write_service service (ok newer) =
      call (E.services.update (record service { resource_version = newer.resource_version }))

  -- The service as the server stored it, which Go writes into the argument.
  unfoldable pub create_or_update_service : Service → M E Service
  create_or_update_service service = do
    found ← attempt (call (E.services.get service.namespace service.name))
    write_service service found

  unfoldable pub delete_worker : Pod → M E (Unit {0})
  delete_worker worker = call (E.pods.delete worker)

  unfoldable pub create_service_for : Pod → M E (Unit {0})
  create_service_for worker = do
    text ← from_result (
        wrap "failed to parse service manifest" (
          parse_template service_tmpl_v1
            (service_data worker.name worker.namespace worker.name "ClusterIP")))
    svc ← from_result (E.decode_service text)
    let labelled = record svc { labels = some ((worker_owner_label_key, worker.name) ∷ []) }
    owned ← from_result (E.set_controller_reference worker.name labelled)
    create_or_update_service owned
    pure tt

  -- The pod that `createWorker` makes of the decoded manifest.
  unfoldable pub new_worker : Request → Pod → Pod
  new_worker req pod = record pod {
    labels = some (
        (worker_owner_label_key, "")
        ∷ (worker_request_label_key, req.cloudshell)
        ∷ (worker_name_label_key, pod.name)
        ∷ []);
    finalizers = (E.add_finalizer pod.finalizers controller_finalizer).0;
  }

  unfoldable pub create_worker : Request → M E (Unit {0})
  create_worker req = do
    node_selector ← from_result (
        wrap "failed to unmarshal node selector for cloudshell"
          (json_string_to_map req.node_selector))
    suffix ← query E.random
    text ← from_result (
        wrap "failed create cloudshell job" (
          parse_template pod_tmpl_v1 (
            pod_data ("cloudshell-worker-" <> suffix) req.namespace req.image node_selector
              req.resources)))
    decoded ← from_result (E.decode_pod text)
    created ← call (E.pods.create (new_worker req decoded))
    create_service_for created
