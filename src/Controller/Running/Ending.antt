-- ===== src/Controller/Running/Ending.antt =====
-- What holds when the controller's workers, and `Run`, have returned.
use cloudtty.Base.{
  ℕ, zero, suc, ◌≡◌, ◌≢◌, refl, sym, ◌∙◌, ap, true, List, some, arith, ◌⊎◌, inl, inr,
}
use cloudtty.Cluster.{Env}
use cloudtty.WorkerPool.Running.{
  Running, worker_returned, running, main_returned, Choice, turn, begin,
}
use cloudtty.WorkerPool.Running.Returning.{IsOrderly, turn-IsOrderly}
use cloudtty.Controller.Sync.{Controller}
use cloudtty.Controller.Running.{
  Operator, Move, of_pool, reconciles, finds_shut, is_heard, selects, shuts_down, worker_at,
  all_returned, fresh_workers, move, Moves, stay, then_move, begin_operator,
}
use cloudtty.Controller.Running.Steps.{
  Puts, reconciles-Puts, finds_shut-Puts, is_heard-Puts, selects-Puts,
}
use cloudtty.Controller.Running.Workers.{put_worker-cases, all_returned-at}

-- Nothing ends before the stop channel is closed, and `Run` ends last.
pub record EndsInOrder {E : Env} (o : Operator E) : Type 0 where
  pub down_stopped : o.main ≢ running → o.pool.stopped ≡ true
  pub worker_stopped :
      (i : ℕ) → worker_at i o.workers ≡ some worker_returned → o.pool.stopped ≡ true
  pub of_pool_goroutines : IsOrderly o.pool
  pub workers_first : o.main ≡ main_returned → all_returned o.workers ≡ true

module _ (E : Env) (c : Controller) where
  turn-stopped :
      (choice : Choice) (s t : Running E)
      → turn E c.pool choice s ≡ some t
      → s.stopped ≡ true
      → t.stopped ≡ true
  unfolding turn
  turn-stopped choice s t e h = ground arith

  EndsInOrder-put : (o p : Operator E) → EndsInOrder o → Puts o p → EndsInOrder p
  EndsInOrder-put o p h put = record {
    down_stopped = λ e. put.same_stopped ∙ h.down_stopped (λ d. e (put.same_main ∙ d));
    worker_stopped = λ i e.
        put.same_stopped
        ∙ stopped i (
            put_worker-cases o.workers i put.place put.after worker_returned
              (sym (ap (worker_at i) put.put) ∙ e));
    of_pool_goroutines = put.orderly h.of_pool_goroutines;
    workers_first = λ e. absurd (
        put.lasts (
          all_returned-at o.workers put.place put.before (h.workers_first (sym put.same_main ∙ e))
            put.stands));
  }
    where
      stopped :
          (i : ℕ)
          → (worker_returned ≡ put.after) ⊎ (worker_at i o.workers ≡ some worker_returned)
          → o.pool.stopped ≡ true
      stopped i (inr e) = h.worker_stopped i e
      stopped i (inl e) = elim (put.returned (sym e)) [ inl s ↦ s | inr d ↦ h.down_stopped d ]

  move-EndsInOrder :
      (m : Move) (o p : Operator E) → move E c m o ≡ some p → EndsInOrder o → EndsInOrder p
  unfolding move
  move-EndsInOrder (of_pool choice) o p e h =
      ground
        (arith, turn-stopped choice o.pool p.pool, turn-IsOrderly E c.pool choice o.pool p.pool)
  move-EndsInOrder (reconciles i key) o p e h =
      EndsInOrder-put o p h (reconciles-Puts E c o p i key e)
  move-EndsInOrder (finds_shut i) o p e h = EndsInOrder-put o p h (finds_shut-Puts E c o p i e)
  move-EndsInOrder (is_heard i) o p e h = EndsInOrder-put o p h (is_heard-Puts E c o p i e)
  move-EndsInOrder (selects i) o p e h = EndsInOrder-put o p h (selects-Puts E c o p i e)
  move-EndsInOrder shuts_down o p e h = ground arith

  Moves-EndsInOrder :
      {ms : List Move} {o p : Operator E} → Moves E c o ms p → EndsInOrder o → EndsInOrder p
  Moves-EndsInOrder stay h = h
  Moves-EndsInOrder {o = o} (then_move {p = p} m e rest) h =
      Moves-EndsInOrder rest (move-EndsInOrder m o p e h)

  fresh-getting : (n i : ℕ) → worker_at i (fresh_workers n) ≢ some worker_returned
  fresh-getting zero i e = cc
  fresh-getting (suc n) zero e = cc
  fresh-getting (suc n) (suc i) e = fresh-getting n i e

  -- In every state that the operator can come to from its start, no goroutine of the pool and none of
  -- the controller's workers has returned before the stop channel is closed, `ShutDown` has not been
  -- called before that, and when `run` of the pool, or the controller's `Run`, has returned, so have
  -- its goroutines.
  pub begin_operator-EndsInOrder :
      {ms : List Move} {p : Operator E} (workers : ℕ) (state : E.State)
      → Moves E c (begin_operator E c workers state) ms p
      → EndsInOrder p
  unfolding begin_operator begin
  begin_operator-EndsInOrder workers state rest = Moves-EndsInOrder rest (record {
    down_stopped = λ e. absurd (e refl);
    worker_stopped = λ i e. absurd (fresh-getting workers i e);
    of_pool_goroutines = ground arith;
    workers_first = λ e. cc;
  })
