-- ===== src/WorkerPool/Lending/Storing.antt =====
-- What the retried body of `Borrow` stores, and when its worker is handed over.
use cloudtty.Base.{◌≡◌, refl, arith, string_eq}
use cloudtty.Base.Result.{conflict, Result, ok, err}
use cloudtty.Objects.{Pod}
use cloudtty.Queue
use cloudtty.Cluster.{Env, RetryIsLawful, default_retry}
use cloudtty.Cluster.Monad.{Request, World, ◌>>=◌, string_item, request_item}
use cloudtty.WorkerPool.Keys.{worker_key}
use cloudtty.WorkerPool.Lending.{bind_worker, bind_body, settle, hand_over, lend}

module _ (E : Env) where
  -- The pool's own state is the same.
  pub record SamePool (v w : World E) : Type 0 where
    pub workers : v.worker_queue ≡ w.worker_queue
    pub requests : v.request_queue ≡ w.request_queue
    pub events : v.events ≡ w.events

  -- What the pod of the enclosing function can be when the body of `Borrow` runs: the listed worker,
  -- or what runs that ended by a conflict have made of it.
  pub data IsTried (req : Request) (worker : Pod) : Pod → Type 0 where
    listed : IsTried req worker worker
    tried_again : {p : Pod} → IsTried req worker p → IsTried req worker (bind_worker E req p)

  -- The pod is the server's answer to an update by the labels and finalizers that `bind_worker` made
  -- of the listed worker, once in each run, which was written to the cache before the update, as the
  -- answer was after it.
  abbrev pub IsStored : Request → Pod → Pod → E.State → Type 0
  IsStored req worker pod s =
      (p : Pod) × IsTried req worker p
      × (s₀ s₁ : E.State) × (E.pods.update (bind_worker E req p)
            (E.write_pod (bind_worker E req p) s₀)
          ≡ (ok pod, s₁))
      × (s ≡ E.write_pod pod s₁)

  -- Of a run's outcome: a success has stored its pod, and the pool's own state is as in w.
  abbrev Settled : Request → Pod → World E → Result (Unit {0}) × (Pod × World E) → Type 0
  Settled req worker w (ok _, (pod, v)) = IsStored req worker pod v.state × SamePool v w
  Settled req worker w (err e, (pod, v)) = SamePool v w

  -- What holds before each run.
  abbrev Tries : Request → Pod → World E → Pod × World E → Type 0
  Tries req worker w (p, v) = IsTried req worker p × SamePool v w

  settle-Settled :
      (req : Request) (worker : Pod) (w v : World E) (p : Pod) (u : Result Pod × E.State)
      → Tries req worker w (p, v)
      → E.pods.update (bind_worker E req p) (E.write_pod (bind_worker E req p) v.state) ≡ u
      → Settled req worker w (settle E (bind_worker E req p) (u.0, record v { state = u.1 }))
        × ((settle E (bind_worker E req p) (u.0, record v { state = u.1 })).0 ≡ err conflict
            → Tries req worker w (settle E (bind_worker E req p) (u.0, record v { state = u.1 })).1)
  unfolding settle ◌>>=◌
  settle-Settled req worker w v p (ok pod, s) (tried, same) e = (
    (
      (p, tried, v.state, s, e, refl),
      record { workers = same.workers; requests = same.requests; events = same.events },
    ),
    λ h. cc,
  )
  settle-Settled req worker w v p (err _, s) (tried, same) e = (
    record { workers = same.workers; requests = same.requests; events = same.events },
    λ h. (
      tried_again tried,
      record { workers = same.workers; requests = same.requests; events = same.events },
    ),
  )

  lend-Settled :
      RetryIsLawful E
      → (req : Request) (worker : Pod) (w : World E)
      → Settled req worker w (E.retry default_retry (Pod × World E) (bind_body E req) (worker, w))
  unfolding bind_body ◌>>=◌
  lend-Settled L req worker w =
      L.retry-last default_retry (Pod × World E) (bind_body E req) (Tries req worker w)
        (Settled req worker w) (λ (p, v) h. settle-Settled req worker w v p _ h refl) (worker, w)
        (listed, record { workers = refl; requests = refl; events = refl })

  hand_over-ok :
      (req : Request) (worker pod : Pod) (w w' : World E) (u : Result (Unit {0}) × (Pod × World E))
      → Settled req worker w u
      → hand_over E u ≡ (ok pod, w')
      → IsStored req worker pod w'.state
        × (w'.worker_queue ≡ Queue.remove w.worker_queue (worker_key pod))
        × (w'.request_queue ≡ w.request_queue)
        × (w'.events ≡ w.events)
  unfolding hand_over ◌>>=◌
  hand_over-ok req worker pod w w' (ok _, (p, v)) ((q, tried, s, s₁, e, written), same) h =
      ((q, tried, s, s₁, ground arith, ground arith), ground arith, ground arith, ground arith)
  hand_over-ok req worker pod w w' (err e, (p, v)) same h = cc

  -- A worker that is handed over has been stored with the labels and finalizers of `bind_worker`,
  -- its key is removed from the worker queue, and the waiting requests are as before.
  pub lend-ok :
      RetryIsLawful E
      → (req : Request) (worker pod : Pod) (w w' : World E) → lend E req worker w ≡ (ok pod, w')
      → IsStored req worker pod w'.state
        × (w'.worker_queue ≡ Queue.remove w.worker_queue (worker_key pod))
        × (w'.request_queue ≡ w.request_queue)
        × (w'.events ≡ w.events)
  unfolding lend ◌>>=◌
  lend-ok L req worker pod w w' h =
      hand_over-ok req worker pod w w' _ (lend-Settled L req worker w) h
