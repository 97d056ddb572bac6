-- ===== src/WorkerPool/Invariant/Lending.antt =====
-- `Borrow`, `Back` and the helpers of the pool keep what the actions on the two queues keep.
use cloudtty.Base.{String, Option, none, some, ℕ}
use cloudtty.Base.Result.{Error, no_worker, Result, ok, err}
use cloudtty.Objects.{Pod, Service}
use cloudtty.Cluster.{Env, RetryIsLawful, default_retry}
use cloudtty.Cluster.Monad.{Request, World, ◌>>=◌, string_item, request_item}
use cloudtty.Cluster.Monad.Keeps.{Keeps, keeps_rules}
use cloudtty.WorkerPool.Matching.{match_worker_for, match_request_for}
use cloudtty.WorkerPool.Creation.{
  delete_worker, create_worker, create_service_for, create_or_update_service, write_service,
}
use cloudtty.WorkerPool.Lending.{
  Pool, borrow, answer, refuse, lend, bind_body, settle, hand_over, bind_worker, back, back_body,
  back_listed, back_found, back_ready, keep_worker, signal_if,
}
use cloudtty.WorkerPool.Keys.{worker_key}
use cloudtty.WorkerPool.Invariant.Rules.{IsKept}

module _ (E : Env) (L : RetryIsLawful E) {P : World E → Type 0} {May : String → Type 0}
    (kept : IsKept P May) where
  pub match_worker_for-Keeps : (req : Request) → Keeps P (match_worker_for E req)
  unfolding match_worker_for
  match_worker_for-Keeps req = search keeps_rules

  pub match_request_for-Keeps : (worker : Pod) → Keeps P (match_request_for E worker)
  unfolding match_request_for
  match_request_for-Keeps worker = search keeps_rules

  pub delete_worker-Keeps : (worker : Pod) → Keeps P (delete_worker E worker)
  unfolding delete_worker
  delete_worker-Keeps worker = search keeps_rules

  pub write_service-Keeps :
      (service : Service) (r : Result Service) → Keeps P (write_service E service r)
  unfolding write_service
  write_service-Keeps service (err e) = search keeps_rules
  write_service-Keeps service (ok newer) = search keeps_rules

  pub create_service_for-Keeps : (worker : Pod) → Keeps P (create_service_for E worker)
  unfolding create_service_for create_or_update_service
  create_service_for-Keeps worker = search (keeps_rules, write_service-Keeps) depth 8

  pub create_worker-Keeps : (req : Request) → Keeps P (create_worker E req)
  unfolding create_worker
  create_worker-Keeps req = search (keeps_rules, create_service_for-Keeps) depth 9

  pub refuse-Keeps : (req : Request) (e : Error) → Keeps P (refuse E req e)
  unfolding refuse
  refuse-Keeps req no_worker = search (keeps_rules, kept.adds_request)
  refuse-Keeps req _ = search keeps_rules

  hand_over_keeps : (u : Result (Unit {0}) × (Pod × World E)) → P u.1.1 → P (hand_over E u).1
  unfolding hand_over ◌>>=◌
  hand_over_keeps (err e, (worker, w)) h = h
  hand_over_keeps (ok _, (worker, w)) h = (kept.removes (worker_key worker)).at w h

  settle_keeps : (bound : Pod) (u : Result Pod × World E) → P u.1 → P (settle E bound u).1.1
  unfolding settle ◌>>=◌
  settle_keeps bound (ok stored, w) h = kept.local.with_state w _ h
  settle_keeps bound (err e, w) h = h

  bind_body_keeps : (req : Request) (t : Pod × World E) → P t.1 → P (bind_body E req t).1.1
  unfolding bind_body ◌>>=◌
  bind_body_keeps req (worker, w) h =
      settle_keeps (bind_worker E req worker) _ (kept.local.with_state w _ h)

  pub lend-Keeps : (req : Request) (worker : Pod) → Keeps P (lend E req worker)
  unfolding lend
  lend-Keeps req worker = record {
    at = λ w h. hand_over_keeps _ (
        L.retry-last default_retry (Pod × World E) (bind_body E req) (λ t. P t.1) (λ u. P u.1.1)
          (λ t q. (bind_body_keeps req t q, λ e. bind_body_keeps req t q)) (worker, w) h);
  }

  pub answer-Keeps : (req : Request) (r : Result Pod) → Keeps P (answer E req r)
  unfolding answer
  answer-Keeps req (err e) = refuse-Keeps req e
  answer-Keeps req (ok worker) = lend-Keeps req worker

  pub borrow-Keeps : (req : Request) → Keeps P (borrow E req)
  unfolding borrow
  borrow-Keeps req = search (keeps_rules, match_worker_for-Keeps, answer-Keeps)

  pub signal_if-Keeps : (req : Option Request) → Keeps P (signal_if E req)
  unfolding signal_if
  signal_if-Keeps none = search keeps_rules
  signal_if-Keeps (some _) = search keeps_rules

  pub keep_worker-Keeps :
      (worker newer : Pod) (req : Option Request)
      → May (worker_key worker)
      → Keeps P (keep_worker E worker newer req)
  unfolding keep_worker
  keep_worker-Keeps worker newer req may = search (keeps_rules, kept.adds, signal_if-Keeps)

  pub back_ready-Keeps :
      (pool : Pool) (worker newer : Pod) (req : Option Request) (size : ℕ)
      → May (worker_key worker)
      → Keeps P (back_ready E pool worker newer req size)
  unfolding back_ready
  back_ready-Keeps pool worker newer none size may =
      search (keeps_rules, keep_worker-Keeps, delete_worker-Keeps)
  back_ready-Keeps pool worker newer (some _) size may = keep_worker-Keeps worker newer _ may

  pub back_found-Keeps :
      (pool : Pool) (worker newer : Pod)
      → May (worker_key worker)
      → Keeps P (back_found E pool worker newer)
  unfolding back_found
  back_found-Keeps pool worker newer may =
      search (keeps_rules, match_request_for-Keeps, back_ready-Keeps, delete_worker-Keeps)

  pub back_listed-Keeps :
      (pool : Pool) (worker : Pod) (r : Result Pod)
      → May (worker_key worker)
      → Keeps P (back_listed E pool worker r)
  unfolding back_listed
  back_listed-Keeps pool worker (err e) may = search keeps_rules
  back_listed-Keeps pool worker (ok newer) may = back_found-Keeps pool worker newer may

  pub back-Keeps :
      (pool : Pool) (worker : Pod) → May (worker_key worker) → Keeps P (back E pool worker)
  unfolding back back_body
  back-Keeps pool worker may = search (keeps_rules, back_listed-Keeps)
