-- ===== src/WorkerPool/Lending/Failing.antt =====
-- A `Borrow` whose update fails: what it leaves in the informer's cache.
use cloudtty.Base.{
  String, true, false, Option, none, some, ◌≡◌, ◌≢◌, refl, ◌∙◌, sym, ap, string_eq, arith, ◌<◌,
}
use cloudtty.Base.Dict.{lookup-insert}
use cloudtty.Base.Result.{Error, conflict, Result, ok, err}
use cloudtty.Objects.{Pod}
use cloudtty.Text.{is_empty}
use cloudtty.Queue
use cloudtty.Queue.Invariant.{all_lem}
use cloudtty.Cluster.{Env, RetryIsLawful, default_retry}
use cloudtty.Cluster.Monad.{Request, World, ◌>>=◌, string_item, request_item}
use cloudtty.Pods.{is_pod_ready}
use cloudtty.WorkerPool.Keys.{is_idle_worker, worker_owner_label_key}
use cloudtty.WorkerPool.Matching.{find_worker, find_request, match_request_for}
use cloudtty.WorkerPool.Lending.{
  bind_worker, bind_body, settle, hand_over, lend, answer, borrow, Pool, or_empty, free_worker,
  keep_worker, back_ready, back_found, back_listed, back_body, back,
}
use cloudtty.WorkerPool.Lending.Binding.{label, HasLabels, label-bind_labels}
use cloudtty.WorkerPool.Lending.Borrowing.{borrow-fits}
use cloudtty.WorkerPool.Lending.Returning.{back_once}

-- The lister hands out the objects of the informer's cache: a pod that is written through its pointer
-- is read back as written, and an update that fails leaves the cache as it is.
pub record CacheIsShared (E : Env) : Type 0 where
  pub reads-write :
      (pod : Pod) (s : E.State)
      → (E.lister_pod pod.namespace pod.name (E.write_pod pod s)).0 ≡ ok pod
  pub reads-failed :
      (pod sent : Pod) (e : Error) (s s' : E.State)
      → (E.lister_pod pod.namespace pod.name s).0 ≡ ok pod
      → E.pods.update sent s ≡ (err e, s')
      → (E.lister_pod pod.namespace pod.name s').0 ≡ ok pod

same_error : (a b : Error) → ◌≡◌ {A = Result (Unit {0})} (err a) (err b) → a ≡ b
same_error a b h = cc

pub owned-not_idle :
    (pod : Pod) (owner : String)
    → label worker_owner_label_key pod.labels ≡ some owner
    → is_empty owner ≡ false
    → is_idle_worker pod ≡ false
unfolding is_idle_worker
owned-not_idle pod owner h named = ground arith

module _ (E : Env) where
  bind_body-err :
      (req : Request) (worker : Pod) (e : Error) (w : World E) (s : E.State)
      → E.pods.update (bind_worker E req worker) (E.write_pod (bind_worker E req worker) w.state)
        ≡ (err e, s)
      → bind_body E req (worker, w) ≡ (err e, (bind_worker E req worker, record w { state = s }))
  unfolding bind_body settle ◌>>=◌
  bind_body-err req worker e w s h = rw h refl

  lend-err :
      RetryIsLawful E
      → (req : Request) (worker : Pod) (e : Error) (w : World E) (s : E.State) → e ≢ conflict
      → E.pods.update (bind_worker E req worker) (E.write_pod (bind_worker E req worker) w.state)
        ≡ (err e, s)
      → lend E req worker w ≡ (err e, record w { state = s })
  unfolding lend hand_over
  lend-err L req worker e w s other h = ap (hand_over E) (
      L.retry-done default_retry (Pod × World E) (bind_body E req) (worker, w)
        (λ c. other (same_error e conflict (sym (ap (λ t. t.0) body) ∙ c)))
      ∙ body)
    where
      body :
          bind_body E req (worker, w) ≡ (err e, (bind_worker E req worker, record w { state = s }))
      body = bind_body-err req worker e w s h

  -- A failed `Borrow` leaves its mark: if the update of the worker that fits fails with an error other
  -- than a conflict, the caller gets this error and the pool's queues and calls are as before, so that
  -- the worker's key still waits; but the informer's cache holds the pod with the cloudshell as its
  -- owner, which the API server never stored, and the pool does not take it for an idle worker. The pod
  -- is assumed to have labels, the cloudshell a name, the cache to share its objects, and
  -- `RetryOnConflict` to behave as documented.
  pub borrow-failed :
      RetryIsLawful E
      → CacheIsShared E
      → (req : Request) (worker : Pod) (e : Error) (w : World E) (s s' : E.State)
      → is_empty (find_worker (Queue.all w.worker_queue) req) ≡ false
      → E.lister_pod req.namespace (find_worker (Queue.all w.worker_queue) req) w.state
        ≡ (ok worker, s)
      → e ≢ conflict
      → E.pods.update (bind_worker E req worker) (E.write_pod (bind_worker E req worker) s)
        ≡ (err e, s')
      → HasLabels worker.labels
      → is_empty req.cloudshell ≡ false
      → (borrow E req w ≡ (err e, record w { state = s' }))
        × ((E.lister_pod worker.namespace worker.name s').0 ≡ ok (bind_worker E req worker))
        × (label worker_owner_label_key (bind_worker E req worker).labels ≡ some req.cloudshell)
        × (is_idle_worker (bind_worker E req worker) ≡ false)
  unfolding answer bind_worker
  borrow-failed L C req worker e w s s' found listed other fails labelled named = (
    borrow-fits E req w found
        ∙ ap (λ out. answer E req out.0 (record w { state = out.1 })) listed
        ∙ lend-err L req worker e (record w { state = s }) s' other fails,
    C.reads-failed (bind_worker E req worker) (bind_worker E req worker) e _ s'
        (C.reads-write (bind_worker E req worker) s) fails,
    owner,
    owned-not_idle (bind_worker E req worker) req.cloudshell owner named,
  )
    where
      owner : label worker_owner_label_key (bind_worker E req worker).labels ≡ some req.cloudshell
      owner = label-bind_labels req.cloudshell worker_owner_label_key worker.labels labelled

  pub free_worker-idle : (newer : Pod) → is_idle_worker (free_worker E newer) ≡ true
  unfolding is_idle_worker free_worker
  free_worker-idle newer =
      rw (lookup-insert worker_owner_label_key worker_owner_label_key "" (or_empty newer.labels))
        refl

  -- A failed `Back` leaves its mark too: if the update of a worker that would be kept fails with an error
  -- other than a conflict, the caller gets this error and the pool's queues and calls are as before; but
  -- the informer's cache holds the pod without an owner, so that the pool takes it for an idle worker,
  -- though the API server still has its shell as its owner. The cache is assumed to share its objects,
  -- and `RetryOnConflict` to behave as documented.
  pub back-failed :
      RetryIsLawful E
      → CacheIsShared E
      → (pool : Pool) (worker newer : Pod) (req : Option Request) (e : Error) (w : World E)
        (s s' : E.State)
      → E.lister_pod worker.namespace worker.name w.state ≡ (ok newer, s)
      → is_pod_ready newer ≡ true
      → find_request w.request_queue.queue newer ≡ ok req
      → (req ≡ none → Queue.len w.worker_queue < pool.max_worker_limit)
      → e ≢ conflict
      → E.pods.update (free_worker E newer) (E.write_pod (free_worker E newer) s) ≡ (err e, s')
      → (back E pool worker w ≡ (err e, record w { state = s' }))
        × ((E.lister_pod newer.namespace newer.name s').0 ≡ ok (free_worker E newer))
        × (is_idle_worker (free_worker E newer) ≡ true)
  unfolding back_body back_listed back_found back_ready keep_worker match_request_for free_worker
      ◌>>=◌
  back-failed L C pool worker newer req e w s s' listed ready fits room other fails = (
    back_once E L pool worker w _ (err e) body (λ c. other (same_error e conflict c)),
    C.reads-failed (free_worker E newer) (free_worker E newer) e _ s'
        (C.reads-write (free_worker E newer) s) fails,
    free_worker-idle newer,
  )
    where
      matched :
          match_request_for E newer (record w { state = s }) ≡ (ok req, record w { state = s })
      matched = ground (arith, all_lem w.request_queue)

      body : back_body E pool worker w ≡ (err e, record w { state = s' })
      body = ground (arith, matched)
