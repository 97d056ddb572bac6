-- ===== src/WorkerPool/Serving.antt =====
-- The pool's own loops of pkg/workerpool/worker_pool.go: the informer's handler `enqueue`,
-- `processNextCluster` with `reconcile`, and `handleRequestQueue`. Logging is left out.
pub mod Reconciling
pub mod Requests
pub mod Taking
pub mod Answering
use cloudtty.Base.{
  ℕ, String, ◌<>◌, Bool, true, false, List, [], ◌∷◌, Option, none, some, if◌then◌else◌,
}
use cloudtty.Base.Result.{Error, panic, no_worker, Result, ok, err, is_not_found}
use cloudtty.Objects.{Informed, object, tombstone, other_object, Pod, CloudShell, empty_pod}
use cloudtty.Queue
use cloudtty.Cluster.{Env, default_retry}
use cloudtty.Cluster.Monad.{
  Request, World, M, ◌>>=◌, ◌>>◌, pure, fail, from_result, attempt, call, emit, workers, requests,
  add_worker, remove_worker, add_request, remove_request, retry_on_conflict, match_request_signal,
  queue_call, add, forget, done, string_item, request_item,
}
use cloudtty.Pods.{is_pod_ready}
use cloudtty.WorkerPool.Keys.{
  worker_key, is_idle_worker, worker_request_label_key, controller_finalizer,
}
use cloudtty.WorkerPool.Matching.{match_worker_for}
use cloudtty.WorkerPool.Creation.{create_worker}
use cloudtty.WorkerPool.Lending.{Pool}

module _ (E : Env) where
  -- `obj.(*corev1.Pod)` panics on a tombstone.
  unfoldable pub enqueue : Pool → Informed Pod → M E (Unit {0})
  enqueue pool (tombstone _) = fail panic
  enqueue pool other_object = fail panic
  enqueue pool (object pod) =
      if is_idle_worker pod
      then emit (queue_call pool.queue (add (E.meta_namespace_key pod.namespace pod.name)))
      else pure tt

  -- The update of `reconcile`, if the finalizer was there.
  unfoldable pub drop_finalizer : Pod → List String × Bool → M E (Unit {0})
  drop_finalizer newer (finalizers, true) =
      call (E.pods.update (record newer { finalizers = finalizers })) >> pure tt
  drop_finalizer newer (finalizers, false) = pure tt

  -- On an error other than NotFound the code goes on with the empty pod.
  unfoldable pub finalize : Result Pod → M E (Unit {0})
  finalize (err e) =
      if is_not_found e
      then pure tt
      else drop_finalizer empty_pod (E.remove_finalizer empty_pod.finalizers controller_finalizer)
  finalize (ok newer) =
      drop_finalizer newer (E.remove_finalizer newer.finalizers controller_finalizer)

  unfoldable pub finalize_body : Pod → M E (Unit {0})
  finalize_body worker = do
    newer ← attempt (call (E.pods.get worker.namespace worker.name))
    finalize newer

  unfoldable pub drop_worker : Pod → M E (Unit {0})
  drop_worker worker = remove_worker (worker_key worker)

  unfoldable pub offer_worker : Pod → M E (Unit {0})
  offer_worker worker = do add_worker (worker_key worker); emit match_request_signal

  unfoldable pub reconcile_live : Bool → Pod → M E (Unit {0})
  reconcile_live true worker = offer_worker worker
  reconcile_live false worker = drop_worker worker

  unfoldable pub reconcile_from : Option ℕ → Pod → M E (Unit {0})
  reconcile_from (some _) worker = do
    drop_worker worker
    retry_on_conflict default_retry (finalize_body worker)
  reconcile_from none worker = reconcile_live (is_pod_ready worker) worker

  unfoldable pub reconcile : Pod → M E (Unit {0})
  reconcile worker = reconcile_from worker.deletion_timestamp worker

  unfoldable pub settle_key : Pool → String → Result (Unit {0}) → M E (Unit {0})
  settle_key pool key (err e) = emit (queue_call pool.queue (add key))
  settle_key pool key (ok _) = emit (queue_call pool.queue (forget key))

  unfoldable pub process_listed : Pool → String → Result Pod → M E (Unit {0})
  process_listed pool key (err e) = pure tt
  process_listed pool key (ok pod) = do
    outcome ← attempt (reconcile pod)
    settle_key pool key outcome

  unfoldable pub process_key : Pool → String → Result (String × String) → M E (Unit {0})
  process_key pool key (err e) = pure tt
  process_key pool key (ok (namespace, name)) = do
    listed ← attempt (call (E.lister_pod namespace name))
    process_listed pool key listed

  -- `processNextCluster` for a key that the queue hands out; a panic ends the process.
  unfoldable pub process_next_cluster : Pool → String → M E Bool
  process_next_cluster pool key = do
    process_key pool key (E.split_meta_namespace_key key)
    emit (queue_call pool.queue (done key))
    pure true

  unfoldable pub drop_request : Request → M E (Unit {0})
  drop_request req = remove_request req

  -- A pod that was made for the request is waited for.
  unfoldable pub create_unless : Request → Result (List Pod) → M E (Unit {0})
  create_unless req (ok (_ ∷ _)) = pure tt
  create_unless req _ = attempt (create_worker E req) >> pure tt

  unfoldable pub inform_shell : Request → Result CloudShell → M E (Unit {0})
  inform_shell req (err e) = if is_not_found e then drop_request req else pure tt
  inform_shell req (ok shell) = do
    emit (queue_call req.cloudshell_queue (add (E.meta_namespace_key shell.namespace shell.name)))
    drop_request req

  unfoldable pub handle_matched : Request → Result Pod → M E (Unit {0})
  handle_matched req (err e) = do
    pods ←
        attempt (call (E.lister_pods (some req.namespace) worker_request_label_key req.cloudshell))
    create_unless req pods
  handle_matched req (ok _) = do
    shell ← attempt (call (E.shells.get req.namespace req.cloudshell))
    inform_shell req shell

  unfoldable pub handle_request : Request → M E (Unit {0})
  handle_request req = do matched ← attempt (match_worker_for E req); handle_matched req matched

  unfoldable pub handle_requests : List Request → M E (Unit {0})
  handle_requests [] = pure tt
  handle_requests (req ∷ reqs) = do handle_request req; handle_requests reqs

  -- The requests are those that wait at the start.
  unfoldable pub handle_request_queue : M E (Unit {0})
  handle_request_queue = do queue ← requests; handle_requests (Queue.all queue)
