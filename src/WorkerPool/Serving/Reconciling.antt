-- ===== src/WorkerPool/Serving/Reconciling.antt =====
-- What `reconcile` does with a worker, deleted or not.
use cloudtty.Base.{
  ℕ, String, Bool, true, false, List, [], ◌∷◌, none, some, string_eq, if◌then◌else◌, ◌≡◌, ◌≢◌, ◌∙◌,
  refl, ap, sym,
}
use cloudtty.Base.Result.{Error, conflict, Result, ok, err, is_not_found}
use cloudtty.Objects.{Pod, empty_pod}
use cloudtty.Queue
use cloudtty.Cluster.{Env, RetryIsLawful, FinalizersAreLawful, default_retry}
use cloudtty.Cluster.Monad.{World, ◌>>=◌, pure, match_request_signal, string_item, request_item}
use cloudtty.Pods.{is_pod_ready}
use cloudtty.WorkerPool.Keys.{worker_key, controller_finalizer}
use cloudtty.WorkerPool.Serving.{
  drop_finalizer, finalize, finalize_body, drop_worker, offer_worker, reconcile_live,
  reconcile_from, reconcile,
}

module _ (E : Env) where
  -- The key of the worker leaves the queue.
  abbrev pub without_key : World E → Pod → World E
  without_key w worker = record w { worker_queue = Queue.remove w.worker_queue (worker_key worker) }

  abbrev pub offered : World E → Pod → World E
  offered w worker = record w {
    worker_queue = Queue.add w.worker_queue (worker_key worker);
    events = match_request_signal ∷ w.events;
  }

  live_lem :
      (ready : Bool) (worker : Pod) (w : World E)
      → reconcile_live E ready worker w
        ≡ (ok tt, if ready then offered w worker else without_key w worker)
  unfolding reconcile_live drop_worker offer_worker ◌>>=◌
  live_lem true worker w = refl
  live_lem false worker w = refl

  -- A worker that is not being deleted is added to the worker queue and the matching goroutine
  -- signalled if it is ready, and it is removed from the queue otherwise; the result is no error.
  pub reconcile_live_lem :
      (worker : Pod) (w : World E)
      → worker.deletion_timestamp ≡ none
      → reconcile E worker w
        ≡ (ok tt, if is_pod_ready worker then offered w worker else without_key w worker)
  unfolding reconcile reconcile_from
  reconcile_live_lem worker w h =
      ap (λ d. reconcile_from E d worker w) h ∙ live_lem (is_pod_ready worker) worker w

  deleted_lem :
      RetryIsLawful E
      → (worker : Pod) (t : ℕ) (w : World E) (r : Result (Unit {0})) (v : World E)
      → worker.deletion_timestamp ≡ some t
      → r ≢ err conflict
      → finalize_body E worker (without_key w worker) ≡ (r, v)
      → reconcile E worker w ≡ (r, v)
  unfolding reconcile reconcile_from drop_worker ◌>>=◌
  deleted_lem L worker t w r v h quiet e =
      ap (λ d. reconcile_from E d worker w) h
      ∙ (L.retry-done default_retry (World E) (finalize_body E worker) (without_key w worker)
            (λ c. quiet (ap (λ x. x.0) (sym e) ∙ c))
          ∙ e)

  ok-ne-err : (e : Error) → ◌≢◌ {A = Result (Unit {0})} (ok tt) (err e)
  ok-ne-err e h = cc

  unchanged :
      (r : List String × Bool) (w : World E)
      → r.1 ≡ false
      → drop_finalizer E empty_pod r w ≡ (ok tt, w)
  unfolding drop_finalizer ◌>>=◌
  unchanged (fs, true) w h = cc
  unchanged (fs, false) w h = refl

  finalize_error :
      FinalizersAreLawful E → (e : Error) (w : World E) → finalize E (err e) w ≡ (ok tt, w)
  unfolding finalize drop_finalizer ◌>>=◌
  finalize_error F e w = with_test (is_not_found e) (
      unchanged (E.remove_finalizer [] controller_finalizer) w
        (F.remove-changed [] controller_finalizer))
    where
      with_test :
          (b : Bool)
          → drop_finalizer E empty_pod (E.remove_finalizer [] controller_finalizer) w ≡ (ok tt, w)
          → (if b
                then pure tt
                else drop_finalizer E empty_pod (E.remove_finalizer [] controller_finalizer))
              w
            ≡ (ok tt, w)
      with_test true h = refl
      with_test false h = h

  -- For a deleted worker any error of reading it counts as success: the key leaves the worker
  -- queue, nothing is updated, and the result is no error. `RetryOnConflict` and the finalizer
  -- helpers are assumed to behave as documented.
  pub reconcile_swallows :
      RetryIsLawful E
      → FinalizersAreLawful E
      → (worker : Pod) (t : ℕ) (e : Error) (w : World E) (s : E.State)
      → worker.deletion_timestamp ≡ some t
      → E.pods.get worker.namespace worker.name w.state ≡ (err e, s)
      → reconcile E worker w ≡ (ok tt, record (without_key w worker) { state = s })
  unfolding finalize_body ◌>>=◌
  reconcile_swallows L F worker t e w s deleted unread =
      deleted_lem L worker t w (ok tt) _ deleted (ok-ne-err conflict) (
        ap (λ x. finalize E x.0 (record (without_key w worker) { state = x.1 })) unread
        ∙ finalize_error F e _)
