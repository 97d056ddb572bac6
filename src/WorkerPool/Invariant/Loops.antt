-- ===== src/WorkerPool/Invariant/Loops.antt =====
-- The pool's goroutines and the informer's handler keep what the actions on the two queues keep.
use cloudtty.Base.{String, Bool, true, false, List, [], ◌∷◌, Option, none, some, ℕ, zero, suc}
use cloudtty.Base.Result.{Result, ok, err}
use cloudtty.Objects.{Informed, object, tombstone, other_object, Pod, CloudShell}
use cloudtty.Cluster.{Env, RetryIsLawful}
use cloudtty.Cluster.Monad.{Request, World, ◌>>=◌, string_item, request_item}
use cloudtty.Cluster.Monad.Keeps.{Keeps, keeps_rules}
use cloudtty.WorkerPool.Lending.{Pool}
use cloudtty.WorkerPool.Serving.{
  enqueue, process_next_cluster, process_key, process_listed, settle_key, reconcile, reconcile_from,
  reconcile_live, drop_worker, offer_worker, finalize_body, finalize, drop_finalizer,
  handle_request_queue, handle_requests, handle_request, handle_matched, inform_shell,
  create_unless, drop_request,
}
use cloudtty.WorkerPool.Scaling.{
  scale_in_worker_queue, scan_workers, collect_idle, delete_if, shrink, delete_first,
  forget_deleted,
}
use cloudtty.WorkerPool.Keys.{worker_key}
use cloudtty.WorkerPool.Invariant.Rules.{IsKept, AnyKey}
use cloudtty.WorkerPool.Invariant.Lending.{
  match_worker_for-Keeps, match_request_for-Keeps, delete_worker-Keeps, create_worker-Keeps,
}

module _ (E : Env) (May : String → Type 0) where
  -- The pod that is listed may join the worker queue.
  abbrev pub ListedMay : Result Pod → Type 0
  ListedMay (err e) = Unit {0}
  ListedMay (ok pod) = May (worker_key pod)

  -- What the lister gives for a key may join the worker queue.
  abbrev pub KeyMay : Result (String × String) → Type 0
  KeyMay (err e) = Unit {0}
  KeyMay (ok (namespace, name)) = (s : E.State) → ListedMay (E.lister_pod namespace name s).0

module _ (E : Env) (L : RetryIsLawful E) {P : World E → Type 0} {May : String → Type 0}
    (kept : IsKept P May) where
  pub enqueue-Keeps : (pool : Pool) (event : Informed Pod) → Keeps P (enqueue E pool event)
  unfolding enqueue
  enqueue-Keeps pool (object pod) = search keeps_rules
  enqueue-Keeps pool (tombstone _) = search keeps_rules
  enqueue-Keeps pool other_object = search keeps_rules

  drop_finalizer-Keeps : (newer : Pod) (r : List String × Bool) → Keeps P (drop_finalizer E newer r)
  unfolding drop_finalizer
  drop_finalizer-Keeps newer (finalizers, true) = search keeps_rules
  drop_finalizer-Keeps newer (finalizers, false) = search keeps_rules

  finalize-Keeps : (r : Result Pod) → Keeps P (finalize E r)
  unfolding finalize
  finalize-Keeps (err e) = search (keeps_rules, drop_finalizer-Keeps)
  finalize-Keeps (ok newer) = drop_finalizer-Keeps newer _

  reconcile_live-Keeps :
      (ready : Bool) (worker : Pod)
      → May (worker_key worker)
      → Keeps P (reconcile_live E ready worker)
  unfolding reconcile_live drop_worker offer_worker
  reconcile_live-Keeps true worker may = search (keeps_rules, kept.adds)
  reconcile_live-Keeps false worker may = search (keeps_rules, kept.removes)

  reconcile_from-Keeps :
      (deleted : Option ℕ) (worker : Pod)
      → May (worker_key worker)
      → Keeps P (reconcile_from E deleted worker)
  unfolding reconcile_from finalize_body drop_worker
  reconcile_from-Keeps none worker may = reconcile_live-Keeps _ worker may
  reconcile_from-Keeps (some _) worker may =
      search (keeps_rules, kept.removes, finalize-Keeps) depth 7

  reconcile-Keeps : (worker : Pod) → May (worker_key worker) → Keeps P (reconcile E worker)
  unfolding reconcile
  reconcile-Keeps worker may = reconcile_from-Keeps _ worker may

  settle_key-Keeps :
      (pool : Pool) (key : String) (r : Result (Unit {0})) → Keeps P (settle_key E pool key r)
  unfolding settle_key
  settle_key-Keeps pool key (err e) = search keeps_rules
  settle_key-Keeps pool key (ok _) = search keeps_rules

  process_listed-Keeps :
      (pool : Pool) (key : String) (r : Result Pod)
      → ListedMay E May r
      → Keeps P (process_listed E pool key r)
  unfolding process_listed
  process_listed-Keeps pool key (err e) may = search keeps_rules
  process_listed-Keeps pool key (ok pod) may =
      search (keeps_rules, reconcile-Keeps, settle_key-Keeps)

  process_key-Keeps :
      (pool : Pool) (key : String) (r : Result (String × String))
      → KeyMay E May r
      → Keeps P (process_key E pool key r)
  unfolding process_key ◌>>=◌
  process_key-Keeps pool key (err e) may = search keeps_rules
  process_key-Keeps pool key (ok (namespace, name)) may = record {
    at = λ w h.
        (process_listed-Keeps pool key _ (may w.state)).at _
          (kept.local.with_state w (E.lister_pod namespace name w.state).1 h);
  }

  pub process_next_cluster-Keeps :
      (pool : Pool) (key : String)
      → KeyMay E May (E.split_meta_namespace_key key)
      → Keeps P (process_next_cluster E pool key)
  unfolding process_next_cluster
  process_next_cluster-Keeps pool key may = search (keeps_rules, process_key-Keeps)

  drop_request-Keeps : (req : Request) → Keeps P (drop_request E req)
  unfolding drop_request
  drop_request-Keeps req = search (keeps_rules, kept.removes_request)

  create_unless-Keeps : (req : Request) (r : Result (List Pod)) → Keeps P (create_unless E req r)
  unfolding create_unless
  create_unless-Keeps req (ok (_ ∷ _)) = search keeps_rules
  create_unless-Keeps req _ = search (keeps_rules, create_worker-Keeps E L kept)

  inform_shell-Keeps : (req : Request) (r : Result CloudShell) → Keeps P (inform_shell E req r)
  unfolding inform_shell
  inform_shell-Keeps req (err e) = search (keeps_rules, drop_request-Keeps)
  inform_shell-Keeps req (ok shell) = search (keeps_rules, drop_request-Keeps)

  handle_matched-Keeps : (req : Request) (r : Result Pod) → Keeps P (handle_matched E req r)
  unfolding handle_matched
  handle_matched-Keeps req (err e) = search (keeps_rules, create_unless-Keeps)
  handle_matched-Keeps req (ok _) = search (keeps_rules, inform_shell-Keeps)

  handle_request-Keeps : (req : Request) → Keeps P (handle_request E req)
  unfolding handle_request
  handle_request-Keeps req =
      search (keeps_rules, match_worker_for-Keeps E L kept, handle_matched-Keeps)

  handle_requests-Keeps : (reqs : List Request) → Keeps P (handle_requests E reqs)
  unfolding handle_requests
  handle_requests-Keeps [] = search keeps_rules
  handle_requests-Keeps (req ∷ reqs) =
      let rest = handle_requests-Keeps reqs in search (keeps_rules, handle_request-Keeps)

  pub handle_request_queue-Keeps : Keeps P (handle_request_queue E)
  unfolding handle_request_queue
  handle_request_queue-Keeps = search (keeps_rules, handle_requests-Keeps)

  collect_idle-Keeps : (pod : Pod) (ready : Bool) → Keeps P (collect_idle E pod ready)
  unfolding collect_idle
  collect_idle-Keeps pod false = search keeps_rules
  collect_idle-Keeps pod true = search (keeps_rules, match_request_for-Keeps E L kept)

  delete_if-Keeps : (late : Bool) (pod : Pod) → Keeps P (delete_if E late pod)
  unfolding delete_if
  delete_if-Keeps true pod = search (keeps_rules, delete_worker-Keeps E L kept)
  delete_if-Keeps false pod = search keeps_rules

  scan_workers-Keeps : (pods : List Pod) → Keeps P (scan_workers E pods)
  unfolding scan_workers
  scan_workers-Keeps [] = search keeps_rules
  scan_workers-Keeps (pod ∷ pods) =
      let rest = scan_workers-Keeps pods in
      search (keeps_rules, delete_if-Keeps, collect_idle-Keeps) depth 8

  forget_deleted-Keeps :
      (worker : Pod) (r : Result (Unit {0})) → Keeps P (forget_deleted E worker r)
  unfolding forget_deleted
  forget_deleted-Keeps worker (err e) = search keeps_rules
  forget_deleted-Keeps worker (ok _) = search (keeps_rules, kept.removes)

  delete_first-Keeps : (n : ℕ) (idle : List Pod) → Keeps P (delete_first E n idle)
  unfolding delete_first
  delete_first-Keeps zero idle = search keeps_rules
  delete_first-Keeps (suc n) [] = search keeps_rules
  delete_first-Keeps (suc n) (worker ∷ idle) =
      let rest = delete_first-Keeps n idle in
      search (keeps_rules, delete_worker-Keeps E L kept, forget_deleted-Keeps)

  shrink-Keeps : (pool : Pool) (idle : List Pod) → Keeps P (shrink E pool idle)
  unfolding shrink
  shrink-Keeps pool idle = search (keeps_rules, delete_first-Keeps)

  pub scale_in_worker_queue-Keeps : (pool : Pool) → Keeps P (scale_in_worker_queue E pool)
  unfolding scale_in_worker_queue
  scale_in_worker_queue-Keeps pool = search (keeps_rules, scan_workers-Keeps, shrink-Keeps)

-- Where any key may join, what the lister gives may.
pub AnyKey-KeyMay : (E : Env) (r : Result (String × String)) → KeyMay E AnyKey r
AnyKey-KeyMay E (err e) = tt
AnyKey-KeyMay E (ok (namespace, name)) = λ s. from_listed (E.lister_pod namespace name s).0
  where
    from_listed : (r : Result Pod) → ListedMay E AnyKey r
    from_listed (err e) = tt
    from_listed (ok pod) = tt
