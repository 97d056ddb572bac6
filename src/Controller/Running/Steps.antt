-- ===== src/Controller/Running/Steps.antt =====
-- What a move of one of the controller's workers changes.
use cloudtty.Base.{
  ℕ, zero, suc, String, ◌≡◌, ◌≢◌, refl, true, Option, none, some, ◌⊎◌, inl, inr, arith,
  if◌then◌else◌,
}
use cloudtty.Cluster.{Env}
use cloudtty.WorkerPool.Running.{
  Worker, getting, worker_returned, finishing, Loop, selecting, handling, loop_returned, Main,
  running, stopping, main_returned, signals,
}
use cloudtty.WorkerPool.Running.Returning.{IsOrderly}
use cloudtty.Controller.Sync.{Controller}
use cloudtty.Controller.Events.{process_next_item}
use cloudtty.Controller.Running.{
  Operator, reconciles, finds_shut, is_heard, selects, worker_at, put_worker, find_shut, hear,
  select, reconcile_key, move,
}

-- One worker, which had not returned, goes on.
pub record Puts {E : Env} (o p : Operator E) : Type 0 where
  pub place : ℕ
  pub before : Worker
  pub after : Worker
  pub stands : worker_at place o.workers ≡ some before
  pub put : p.workers ≡ put_worker place after o.workers
  pub lasts : before ≢ worker_returned
  pub same_main : p.main ≡ o.main
  pub same_stopped : p.pool.stopped ≡ o.pool.stopped
  pub orderly : IsOrderly o.pool → IsOrderly p.pool
  pub unheard : o.pool.requests ≡ loop_returned → p.pool.requests ≡ loop_returned
  pub heard : (n : ℕ) → before ≡ finishing (suc n) → o.pool.requests ≡ selecting
  pub returned : after ≡ worker_returned → (o.pool.stopped ≡ true) ⊎ (o.main ≢ running)

module _ {E : Env} (i : ℕ) (o p : Operator E) where
  select-Puts : (w : Option Worker) → worker_at i o.workers ≡ w → select i w o ≡ some p → Puts o p
  unfolding select
  select-Puts (some (finishing zero)) at e = record {
    place = i;
    before = finishing 0;
    after = if o.pool.stopped then worker_returned else getting;
    stands = at;
    put = ground arith;
    lasts = ground arith;
    same_main = ground arith;
    same_stopped = ground arith;
    orderly = ground arith;
    unheard = ground arith;
    heard = ground arith;
    returned = λ r. inl (ground arith);
  }
  select-Puts (some (finishing (suc n))) at e = cc
  select-Puts (some getting) at e = cc
  select-Puts (some worker_returned) at e = cc
  select-Puts none at e = cc

  find_shut-Puts :
      (w : Option Worker) (m : Main)
      → worker_at i o.workers ≡ w
      → o.main ≡ m
      → find_shut i w m o ≡ some p
      → Puts o p
  unfolding find_shut
  find_shut-Puts (some getting) running at down e = cc
  find_shut-Puts (some getting) stopping at down e = record {
    place = i;
    before = getting;
    after = worker_returned;
    stands = at;
    put = ground arith;
    lasts = ground arith;
    same_main = ground arith;
    same_stopped = ground arith;
    orderly = ground arith;
    unheard = ground arith;
    heard = ground arith;
    returned = λ r. inr (ground arith);
  }
  find_shut-Puts (some getting) main_returned at down e = record {
    place = i;
    before = getting;
    after = worker_returned;
    stands = at;
    put = ground arith;
    lasts = ground arith;
    same_main = ground arith;
    same_stopped = ground arith;
    orderly = ground arith;
    unheard = ground arith;
    heard = ground arith;
    returned = λ r. inr (ground arith);
  }
  find_shut-Puts (some (finishing _)) m at down e = cc
  find_shut-Puts (some worker_returned) m at down e = cc
  find_shut-Puts none m at down e = cc

  hear-Puts :
      (w : Option Worker) (l : Loop)
      → worker_at i o.workers ≡ w
      → o.pool.requests ≡ l
      → hear i w l o ≡ some p
      → Puts o p
  unfolding hear
  hear-Puts (some (finishing (suc n))) selecting at open_ e = record {
    place = i;
    before = finishing (suc n);
    after = finishing n;
    stands = at;
    put = ground arith;
    lasts = ground arith;
    same_main = ground arith;
    same_stopped = ground arith;
    orderly = ground arith;
    unheard = ground arith;
    heard = λ k h. open_;
    returned = ground arith;
  }
  hear-Puts (some (finishing (suc n))) handling at open_ e = cc
  hear-Puts (some (finishing (suc n))) loop_returned at open_ e = cc
  hear-Puts (some (finishing zero)) l at open_ e = cc
  hear-Puts (some getting) l at open_ e = cc
  hear-Puts (some worker_returned) l at open_ e = cc
  hear-Puts none l at open_ e = cc

  module _ (c : Controller) (key : String) where
    reconcile_key-Puts :
        (w : Option Worker)
        → worker_at i o.workers ≡ w
        → reconcile_key E c i key w o ≡ some p
        → Puts o p
    unfolding reconcile_key
    reconcile_key-Puts (some getting) at e = record {
      place = i;
      before = getting;
      after = finishing (signals (process_next_item E c key o.pool.world).1.events);
      stands = at;
      put = ground arith;
      lasts = ground arith;
      same_main = ground arith;
      same_stopped = ground arith;
      orderly = ground arith;
      unheard = ground arith;
      heard = ground arith;
      returned = ground arith;
    }
    reconcile_key-Puts (some (finishing _)) at e = cc
    reconcile_key-Puts (some worker_returned) at e = cc
    reconcile_key-Puts none at e = cc

module _ (E : Env) (c : Controller) (o p : Operator E) where
  pub reconciles-Puts : (i : ℕ) (key : String) → move E c (reconciles i key) o ≡ some p → Puts o p
  unfolding move
  reconciles-Puts i key e =
      reconcile_key-Puts i o p c key (worker_at i o.workers) refl (ground (arith))

  pub finds_shut-Puts : (i : ℕ) → move E c (finds_shut i) o ≡ some p → Puts o p
  unfolding move
  finds_shut-Puts i e = find_shut-Puts i o p (worker_at i o.workers) o.main refl refl (ground arith)

  pub is_heard-Puts : (i : ℕ) → move E c (is_heard i) o ≡ some p → Puts o p
  unfolding move
  is_heard-Puts i e =
      hear-Puts i o p (worker_at i o.workers) o.pool.requests refl refl (ground arith)

  pub selects-Puts : (i : ℕ) → move E c (selects i) o ≡ some p → Puts o p
  unfolding move
  selects-Puts i e = select-Puts i o p (worker_at i o.workers) refl (ground arith)
