-- ===== src/WorkerPool/Lending.antt =====
-- `Borrow` and `Back` of pkg/workerpool/worker_pool.go. Go sends on an unbuffered channel; the model
-- records the send, and the state after it is the one in which a receiver has taken it.
pub mod Binding
pub mod Storing
pub mod Borrowing
pub mod Returning
pub mod Failing
use cloudtty.Base.{
  ℕ, zero, suc, ◌+◌, String, ◌<>◌, Bool, true, false, List, [], ◌∷◌, Option, none, some,
  if◌then◌else◌, leb, ◌&&◌,
}
use cloudtty.Base.Int.{ℤ, pos, ◌+ℤ◌}
use cloudtty.Base.Dict.{Dict, lookup, insert, delete}
use cloudtty.Base.Result.{Error, no_worker, Result, ok, err, is_not_found}
use cloudtty.Objects.{Pod}
use cloudtty.Text.Decimal.{show_int, parse_int}
use cloudtty.Queue
use cloudtty.Cluster.{Env, default_retry}
use cloudtty.Cluster.Monad.{
  Request, World, M, ◌>>=◌, ◌>>◌, pure, fail, attempt, call, emit, workers, requests, add_worker,
  remove_worker, add_request, remove_request, retry_on_conflict, match_request_signal, string_item,
  request_item, write_pod,
}
use cloudtty.Pods.{is_pod_ready}
use cloudtty.WorkerPool.Keys.{
  worker_key, worker_owner_label_key, worker_request_label_key, worker_binding_count_label_key,
  controller_finalizer,
}
use cloudtty.WorkerPool.Matching.{match_worker_for, match_request_for}
use cloudtty.WorkerPool.Creation.{delete_worker}

-- `coreWorkerLimit`, `maxWorkerLimit` and the address of `queue`. The command refuses negative
-- limits.
pub record Pool : Type 0 where
  pub core_worker_limit : ℕ
  pub max_worker_limit : ℕ
  pub queue : ℕ

-- The binding count that `Borrow` writes, from the label's value.
unfoldable pub next_count : Option String → ℤ
next_count none = pos 1
next_count (some val) = let (num, valid) = parse_int val in if valid then num +ℤ pos 1 else pos 1

-- The labels that `Borrow` writes: nothing if there is no label.
unfoldable pub bind_labels : String → Option Dict → Option Dict
unfolding next_count
bind_labels cloudshell none = none
bind_labels cloudshell (some []) = some []
bind_labels cloudshell (some (l ∷ ls)) =
    let count = show_int (next_count (lookup worker_binding_count_label_key (l ∷ ls))) in
    let counted = insert worker_binding_count_label_key count (l ∷ ls) in
    let owned = insert worker_owner_label_key cloudshell counted in
    some (delete worker_request_label_key owned)

abbrev pub or_empty : Option Dict → Dict
or_empty none = []
or_empty (some m) = m

module _ (E : Env) where
  -- What the retried body of `Borrow` makes of the worker.
  unfoldable pub bind_worker : Request → Pod → Pod
  unfolding bind_labels
  bind_worker req worker = record worker {
    labels = bind_labels req.cloudshell worker.labels;
    finalizers = (E.remove_finalizer worker.finalizers controller_finalizer).0;
  }

  -- The pod that the enclosing function holds after an update: the server's answer, which is written
  -- to the same object, or as written before.
  unfoldable pub settle : Pod → Result Pod × World E → Result (Unit {0}) × (Pod × World E)
  settle bound (ok stored, w) = (ok tt, (stored, (write_pod stored w).1))
  settle bound (err e, w) = (err e, (bound, w))

  -- The body works on the one pod of the enclosing function, the lister's own, and writes to it before
  -- the update, so a further run starts from the pod that the run before has written.
  unfoldable pub bind_body : Request → Pod × World E → Result (Unit {0}) × (Pod × World E)
  unfolding settle
  bind_body req (worker, w) =
      let bound = bind_worker req worker in
      settle bound (call (E.pods.update bound) (write_pod bound w).1)

  -- After the retries: the worker leaves the queue.
  unfoldable pub hand_over : Result (Unit {0}) × (Pod × World E) → Result Pod × World E
  hand_over (err e, (worker, w)) = (err e, w)
  hand_over (ok _, (worker, w)) =
      (ok worker, record w { worker_queue = Queue.remove w.worker_queue (worker_key worker) })

  unfoldable pub lend : Request → Pod → M E Pod
  unfolding hand_over
  lend req worker w = hand_over (E.retry default_retry (Pod × World E) (bind_body req) (worker, w))

  unfoldable pub refuse : Request → Error → M E Pod
  refuse req no_worker = do add_request req; emit match_request_signal; fail no_worker
  refuse req e = fail e

  unfoldable pub answer : Request → Result Pod → M E Pod
  answer req (err e) = refuse req e
  answer req (ok worker) = lend req worker

  unfoldable pub borrow : Request → M E Pod
  borrow req = do found ← attempt (match_worker_for E req); answer req found

  -- The pod as `Back` stores it.
  unfoldable pub free_worker : Pod → Pod
  free_worker newer = record newer {
    labels = some (insert worker_owner_label_key "" (or_empty newer.labels));
    finalizers = (E.add_finalizer newer.finalizers controller_finalizer).0;
  }

  unfoldable pub signal_if : Option Request → M E (Unit {0})
  signal_if none = pure tt
  signal_if (some _) = emit match_request_signal

  unfoldable pub keep_worker : Pod → Pod → Option Request → M E (Unit {0})
  keep_worker worker newer req = do
    write_pod (free_worker newer)
    stored ← call (E.pods.update (free_worker newer))
    write_pod stored
    add_worker (worker_key worker)
    signal_if req

  unfoldable pub back_ready : Pool → Pod → Pod → Option Request → ℕ → M E (Unit {0})
  back_ready pool worker newer none size =
      if leb pool.max_worker_limit size
      then delete_worker E newer
      else keep_worker worker newer none
  back_ready pool worker newer (some req) size = keep_worker worker newer (some req)

  unfoldable pub back_found : Pool → Pod → Pod → M E (Unit {0})
  back_found pool worker newer =
      if is_pod_ready newer
      then (do
        req ← match_request_for E newer
        queue ← workers
        back_ready pool worker newer req (Queue.len queue))
      else delete_worker E newer

  unfoldable pub back_listed : Pool → Pod → Result Pod → M E (Unit {0})
  back_listed pool worker (err e) = if is_not_found e then pure tt else fail e
  back_listed pool worker (ok newer) = back_found pool worker newer

  unfoldable pub back_body : Pool → Pod → M E (Unit {0})
  back_body pool worker = do
    found ← attempt (call (E.lister_pod worker.namespace worker.name))
    back_listed pool worker found

  unfoldable pub back : Pool → Pod → M E (Unit {0})
  back pool worker = retry_on_conflict default_retry (back_body pool worker)
