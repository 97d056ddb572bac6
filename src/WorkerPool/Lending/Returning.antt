-- ===== src/WorkerPool/Lending/Returning.antt =====
-- What `Back` does with a worker, and how large the worker queue gets by it.
use cloudtty.Base.{
  ℕ, ◌≤◌, ◌<◌, true, false, List, [], ◌∷◌, ◌++◌, Option, none, some, Bool-cases, inl, inr, ◌≡◌, ◌≢◌,
  refl, arith, ◌∙◌, ap, sym, string_eq, leb,
}
use cloudtty.Base.Result.{conflict, Result, ok, err}
use cloudtty.Objects.{Pod}
use cloudtty.Queue
use cloudtty.Queue.Invariant.{len-add-le, all_lem}
use cloudtty.Cluster.{Env, RetryIsLawful, default_retry}
use cloudtty.Cluster.Monad.{
  Request, World, ◌>>=◌, Event, match_request_signal, string_item, request_item,
}
use cloudtty.Pods.{is_pod_ready}
use cloudtty.WorkerPool.Keys.{worker_key}
use cloudtty.WorkerPool.Matching.{find_request, match_request_for}
use cloudtty.WorkerPool.Creation.{delete_worker}
use cloudtty.WorkerPool.Lending.{
  Pool, free_worker, keep_worker, signal_if, back_ready, back_found, back_listed, back_body, back,
}

lt_of_test : (a b : ℕ) → leb a b ≡ false → b < a
lt_of_test a b h = ground arith

module _ (E : Env) where
  -- No request waits, the workers that wait are within the limit, and no call was made.
  pub record IsIdle (pool : Pool) (events : List Event) (w : World E) : Type 0 where
    pub no_request : w.request_queue.queue ≡ []
    pub within : Queue.len w.worker_queue ≤ pool.max_worker_limit
    pub quiet : w.events ≡ events

  module _ (pool : Pool) (events : List Event) where
    delete_worker-IsIdle :
        (worker : Pod) (w : World E)
        → IsIdle pool events w
        → IsIdle pool events (delete_worker E worker w).1
    unfolding delete_worker ◌>>=◌
    delete_worker-IsIdle worker w h = record {
      no_request = h.no_request;
      within = h.within;
      quiet = h.quiet;
    }

    keep_worker-IsIdle :
        (worker newer : Pod) (w : World E)
        → IsIdle pool events w
        → Queue.len w.worker_queue < pool.max_worker_limit
        → IsIdle pool events (keep_worker E worker newer none w).1
    unfolding keep_worker signal_if ◌>>=◌
    keep_worker-IsIdle worker newer w h room =
        ground (arith, len-add-le w.worker_queue (worker_key worker))

    match_request_for-none :
        (worker : Pod) (w : World E)
        → IsIdle pool events w
        → match_request_for E worker w ≡ (ok none, w)
    unfolding match_request_for find_request ◌>>=◌
    match_request_for-none worker w h = rw (all_lem w.request_queue, h.no_request)

    back_ready-IsIdle :
        (worker newer : Pod) (w : World E)
        → IsIdle pool events w
        → IsIdle pool events (back_ready E pool worker newer none (Queue.len w.worker_queue) w).1
    unfolding back_ready ◌>>=◌
    back_ready-IsIdle worker newer w h =
        elim (Bool-cases (leb pool.max_worker_limit (Queue.len w.worker_queue))) [
          | inl full ↦ rw (full, back_ready) (delete_worker-IsIdle newer w h)
          | inr room ↦
              rw (room, back_ready) (keep_worker-IsIdle worker newer w h (lt_of_test _ _ room))
        ]

    back_found-IsIdle :
        (worker newer : Pod) (w : World E)
        → IsIdle pool events w
        → IsIdle pool events (back_found E pool worker newer w).1
    unfolding back_found ◌>>=◌
    back_found-IsIdle worker newer w h = ground (
      arith,
      match_request_for-none newer w h,
      back_ready-IsIdle worker newer w h,
      delete_worker-IsIdle newer w h,
    )

    back_listed-IsIdle :
        (worker : Pod) (r : Result Pod) (w : World E)
        → IsIdle pool events w
        → IsIdle pool events (back_listed E pool worker r w).1
    unfolding back_listed ◌>>=◌
    back_listed-IsIdle worker (ok newer) w h = back_found-IsIdle worker newer w h
    back_listed-IsIdle worker (err e) w h = ground arith

    back_body-IsIdle :
        (worker : Pod) (w : World E)
        → IsIdle pool events w
        → IsIdle pool events (back_body E pool worker w).1
    unfolding back_body ◌>>=◌
    back_body-IsIdle worker w h =
        back_listed-IsIdle worker _ _
          (record { no_request = h.no_request; within = h.within; quiet = h.quiet })

  -- While no request waits, giving a worker back never takes a worker queue that is within the
  -- pool's maximum over it, whatever the API server answers and however often the update is
  -- retried; no request appears and nobody is signalled. `RetryOnConflict` is assumed to behave as
  -- documented.
  pub back_within_limit :
      RetryIsLawful E
      → (pool : Pool) (worker : Pod) (w : World E) → w.request_queue.queue ≡ []
      → Queue.len w.worker_queue ≤ pool.max_worker_limit
      → (Queue.len (back E pool worker w).1.worker_queue ≤ pool.max_worker_limit)
        × ((back E pool worker w).1.request_queue.queue ≡ [])
        × ((back E pool worker w).1.events ≡ w.events)
  unfolding back ◌>>=◌
  back_within_limit L pool worker w none_waits within =
      let kept : IsIdle pool w.events (back E pool worker w).1 =
        L.retry-last default_retry (World E) (back_body E pool worker) (IsIdle pool w.events)
          (λ t. IsIdle pool w.events t.1)
          (λ v h. (
            back_body-IsIdle pool w.events worker v h,
            λ e. back_body-IsIdle pool w.events worker v h,
          ))
          w (record { no_request = none_waits; within = within; quiet = refl }) in
      (kept.within, kept.no_request, kept.quiet)

  -- A run of the body that does not conflict is all of `Back`.
  pub back_once :
      RetryIsLawful E
      → (pool : Pool) (worker : Pod) (w w' : World E) (r : Result (Unit {0}))
      → back_body E pool worker w ≡ (r, w')
      → r ≢ err conflict
      → back E pool worker w ≡ (r, w')
  unfolding back ◌>>=◌
  back_once L pool worker w w' r h clear =
      L.retry-done default_retry (World E) (back_body E pool worker) w
        (λ e. clear (sym (ap (λ t. t.0) h) ∙ e))
      ∙ h

  -- The calls that see a worker kept: it is signalled that a request may be matched.
  abbrev pub signals : Option Request → List Event
  signals none = []
  signals (some _) = match_request_signal ∷ []

  -- A listed worker that is ready, and for which a request waits or the queue has room, is stored
  -- without an owner and with the pool's finalizer, and its key is added to the worker queue; the
  -- matching goroutine is signalled exactly if a request waits. The update is assumed to succeed, and
  -- `RetryOnConflict` to behave as documented.
  pub back_keeps :
      RetryIsLawful E
      → (pool : Pool) (worker newer stored : Pod) (req : Option Request) (w : World E)
        (s s' : E.State)
      → E.lister_pod worker.namespace worker.name w.state ≡ (ok newer, s)
      → is_pod_ready newer ≡ true
      → find_request w.request_queue.queue newer ≡ ok req
      → (req ≡ none → Queue.len w.worker_queue < pool.max_worker_limit)
      → E.pods.update (free_worker E newer) (E.write_pod (free_worker E newer) s) ≡ (ok stored, s')
      → back E pool worker w ≡ (
        ok tt,
        record w {
          worker_queue = Queue.add w.worker_queue (worker_key worker);
          events = signals req ++ w.events;
          state = E.write_pod stored s';
        },
      )
  unfolding back_body back_listed back_found back_ready keep_worker signal_if match_request_for
      ◌>>=◌
  back_keeps L pool worker newer stored req w s s' listed ready fits room done =
      back_once L pool worker w _ (ok tt) body (λ e. cc)
    where
      open w use {worker_queue, request_queue, events}

      matched :
          match_request_for E newer (record w { state = s }) ≡ (ok req, record w { state = s })
      matched = ground (arith, all_lem w.request_queue)

      body : back_body E pool worker w ≡ (
        ok tt,
        record w {
          worker_queue = Queue.add worker_queue (worker_key worker);
          events = signals req ++ events;
          state = E.write_pod stored s';
        },
      )
      body = ground (arith, matched)
