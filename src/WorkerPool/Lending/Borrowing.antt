-- ===== src/WorkerPool/Lending/Borrowing.antt =====
-- What `Borrow` does on each of its ways out.
use cloudtty.Base.{
  ℕ, ◌+◌, ◌<◌, ◌^◌, true, false, ◌∷◌, Bool-cases, inl, inr, ◌≡◌, ◌≢◌, refl, arith, ◌∙◌, ap, sym,
  subst, List, [], String, eq_iff, contains, string_eq,
}
use cloudtty.Base.Result.{Error, conflict, no_worker, Result, ok, err}
use cloudtty.Objects.{Pod}
use cloudtty.Text.{is_empty}
use cloudtty.Queue
use cloudtty.Queue.Invariant.{Inv, all_lem, absent-remove}
use cloudtty.Cluster.{Env, RetryIsLawful, default_retry}
use cloudtty.Cluster.Monad.{
  Request, World, ◌>>=◌, call, match_request_signal, string_item, request_item, string_item-IsExact,
}
use cloudtty.WorkerPool.Keys.{worker_key}
use cloudtty.WorkerPool.Matching.{fits, names_of, find_worker, match_worker_for}
use cloudtty.WorkerPool.Lending.Storing.{IsStored, lend-ok}
use cloudtty.WorkerPool.Lending.Binding.{HasCount, bind_worker-HasCount}
use cloudtty.WorkerPool.Lending.{
  bind_worker, bind_body, settle, hand_over, lend, borrow, answer, refuse,
}

module _ (E : Env) where
  -- `matchWorkerFor` when no name is found, and when one is.
  match_worker_for_empty :
      (req : Request) (w : World E)
      → is_empty (find_worker (Queue.all w.worker_queue) req) ≡ true
      → match_worker_for E req w ≡ (err no_worker, w)
  unfolding match_worker_for ◌>>=◌
  match_worker_for_empty req w h = rw (h, match_worker_for)

  pub match_worker_for_named :
      (req : Request) (w : World E)
      → is_empty (find_worker (Queue.all w.worker_queue) req) ≡ false
      → match_worker_for E req w
        ≡ call (E.lister_pod req.namespace (find_worker (Queue.all w.worker_queue) req)) w
  unfolding match_worker_for ◌>>=◌
  match_worker_for_named req w h = rw (h, match_worker_for)

  -- With no worker that fits, the request waits in the request queue, the matching goroutine is
  -- signalled, the caller gets `ErrNotWorker`, and nothing else changes.
  pub borrow-no_worker :
      (req : Request) (w : World E)
      → is_empty (find_worker (Queue.all w.worker_queue) req) ≡ true
      → borrow E req w ≡ (
        err no_worker,
        record w {
          request_queue = Queue.add w.request_queue req;
          events = match_request_signal ∷ w.events;
        },
      )
  unfolding borrow answer refuse ◌>>=◌
  borrow-no_worker req w h = rw (match_worker_for_empty req w h)

  -- With a worker that fits, it is the one that the lister gives for the name.
  pub borrow-fits :
      (req : Request) (w : World E)
      → is_empty (find_worker (Queue.all w.worker_queue) req) ≡ false
      → borrow E req w ≡ (
          let (r, s) =
            E.lister_pod req.namespace (find_worker (Queue.all w.worker_queue) req) w.state in
          answer E req r (record w { state = s }))
  unfolding borrow ◌>>=◌
  borrow-fits req w h = rw (match_worker_for_named req w h)

  find_worker-fits :
      (keys : List String) (req : Request)
      → is_empty (find_worker keys req) ≡ false
      → (key : String) × (contains keys key ≡ true)
        × (fits (names_of key) req ≡ true)
        × (find_worker keys req ≡ (names_of key).name)
  unfolding find_worker
  find_worker-fits [] req h = absurd (true-ne-false h)
    where
      true-ne-false : true ≢ false
      true-ne-false e = cc
  find_worker-fits (key ∷ keys) req h = elim (Bool-cases (fits (names_of key) req)) [
    | inl here ↦ (key, ground (arith, (eq_iff key key).1 refl), here, rw here refl)
    | inr not_here ↦
        let (other, waits, fit, named) = find_worker-fits keys req (sym (rw not_here refl) ∙ h) in
        (other, ground (arith, waits), fit, rw not_here named)
  ]

  refuse-ne-ok :
      (req : Request) (e : Error) (pod : Pod) (w w' : World E) → refuse E req e w ≢ (ok pod, w')
  unfolding refuse ◌>>=◌
  refuse-ne-ok req no_worker pod w w' h = cc
  refuse-ne-ok req _ pod w w' h = cc

  answer-ok :
      RetryIsLawful E
      → (req : Request) (r : Result Pod) (pod : Pod) (w w' : World E)
      → answer E req r w ≡ (ok pod, w')
      → (worker : Pod) × (r ≡ ok worker)
        × IsStored E req worker pod w'.state
        × (w'.worker_queue ≡ Queue.remove w.worker_queue (worker_key pod))
        × (w'.request_queue ≡ w.request_queue)
        × (w'.events ≡ w.events)
  unfolding answer ◌>>=◌
  answer-ok L req (err e) pod w w' h = absurd (refuse-ne-ok req e pod w w' h)
  answer-ok L req (ok worker) pod w w' h =
      let (stored, workers, requests, events) = lend-ok E L req worker pod w w' h in
      (worker, refl, stored, workers, requests, events)

  -- A borrowed worker comes from a waiting key whose namespace and image are the request's: it is the
  -- pod that the lister gives for the request's namespace and the name in that key, with the labels
  -- and finalizers that `bind_worker` made of it once in each run, as the server answered the update
  -- with it, and the answer's key no longer waits in the worker queue, whose other items, like the
  -- request queue, are as before. The worker queue is assumed to hold no key twice, and
  -- `RetryOnConflict` to behave as documented.
  pub borrow-ok :
      RetryIsLawful E
      → (req : Request) (pod : Pod) (w w' : World E) → Inv w.worker_queue
      → borrow E req w ≡ (ok pod, w')
      → (key : String) × (contains w.worker_queue.queue key ≡ true)
        × (fits (names_of key) req ≡ true)
        × (find_worker (Queue.all w.worker_queue) req ≡ (names_of key).name)
        × (worker : Pod) × ((E.lister_pod req.namespace (names_of key).name w.state).0 ≡ ok worker)
        × IsStored E req worker pod w'.state
        × (contains w'.worker_queue.queue (worker_key pod) ≡ false)
        × (w'.worker_queue ≡ Queue.remove w.worker_queue (worker_key pod))
        × (w'.request_queue ≡ w.request_queue)
        × (w'.events ≡ w.events)
  borrow-ok L req pod w w' v h =
      elim (Bool-cases (is_empty (find_worker (Queue.all w.worker_queue) req))) [
        | inl nobody ↦ absurd (nobody_waits (sym (borrow-no_worker req w nobody) ∙ h))
        | inr found ↦
            let (worker, given, stored, queue, requests, events) =
              answer-ok L req _ pod _ w' (sym (borrow-fits req w found) ∙ h) in
            let (key, waits, fit, named) = find_worker-fits (Queue.all w.worker_queue) req found in
            (
              key,
              subst (λ (keys : List String). contains keys key ≡ true) (all_lem w.worker_queue)
                  waits,
              fit,
              named,
              worker,
              subst (λ (name : String). (E.lister_pod req.namespace name w.state).0 ≡ ok worker)
                  named given,
              stored,
              rw queue (absent-remove string_item-IsExact w.worker_queue (worker_key pod) v),
              queue,
              requests,
              events,
            )
      ]
    where
      nobody_waits : {u : World E} → ◌≢◌ {A = Result Pod × World E} (err no_worker, u) (ok pod, w')
      nobody_waits h = cc

  bind_body-update :
      (req : Request) (worker : Pod) (w : World E) (r : Result Pod) (s : E.State)
      → E.pods.update (bind_worker E req worker) (E.write_pod (bind_worker E req worker) w.state)
        ≡ (r, s)
      → bind_body E req (worker, w)
        ≡ settle E (bind_worker E req worker) (r, record w { state = s })
  unfolding bind_body ◌>>=◌
  bind_body-update req worker w r s h = rw h

  lend_again :
      RetryIsLawful E
      → (req : Request) (worker p stored : Pod) (w v w' : World E)
      → bind_body E req (worker, w) ≡ (err conflict, (p, v))
      → bind_body E req (p, v) ≡ (ok tt, (stored, w'))
      → lend E req worker w ≡ hand_over E (ok tt, (stored, w'))
  unfolding lend ◌>>=◌
  lend_again L req worker p stored w v w' first second = ap (hand_over E) (
      L.retry-again default_retry (Pod × World E) (bind_body E req) (worker, w)
        (ap (λ t. t.0) first) (λ e. ok-ne-err (sym (ap (λ t. t.0) again) ∙ e))
      ∙ again)
    where
      again : bind_body E req (bind_body E req (worker, w)).1 ≡ (ok tt, (stored, w'))
      again = rw first second

      ok-ne-err : ◌≢◌ {A = Result (Unit {0})} (ok tt) (err conflict)
      ok-ne-err h = cc

  -- If the first update of a worker that was bound n times conflicts and the second succeeds, the
  -- worker is lent, and the pod that the second update sends counts n + 2 bindings: it is made from
  -- the pod that the first one sent, without another read. The number n + 1 is assumed to be below
  -- 2^31, and `RetryOnConflict` to behave as documented.
  pub lend_counts_twice :
      RetryIsLawful E
      → (n : ℕ) (req : Request) (worker stored : Pod) (w : World E) (s s' : E.State)
      → n + 1 < 2 ^ 31
      → HasCount n worker
      → E.pods.update (bind_worker E req worker) (E.write_pod (bind_worker E req worker) w.state)
        ≡ (err conflict, s)
      → E.pods.update
          (bind_worker E req (bind_worker E req worker))
          (E.write_pod (bind_worker E req (bind_worker E req worker)) s)
        ≡ (ok stored, s')
      → HasCount (n + 1 + 1) (bind_worker E req (bind_worker E req worker))
        × (lend E req worker w ≡ (
          ok stored,
          record w {
            worker_queue = Queue.remove w.worker_queue (worker_key stored);
            state = E.write_pod stored s';
          },
        ))
  unfolding hand_over settle ◌>>=◌
  lend_counts_twice L n req worker stored w s s' small h first second = (
    bind_worker-HasCount E (n + 1) req _ small
        (bind_worker-HasCount E n req worker (omega arith) h),
    lend_again L req worker _ stored w _ _ (bind_body-update req worker w _ s first)
        (bind_body-update req (bind_worker E req worker) (record w { state = s }) _ s' second),
  )
