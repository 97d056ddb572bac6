-- ===== src/Controller/Running/Shutdown.antt =====
-- The controller's workers after the stop channel is closed: the sends that are left on
-- `matchRequestSignal`, whose only receiver is the pool's `tryHandleRequestQueue`.
use cloudtty.Base.{ℕ, suc, ◌≡◌, ◌≢◌, sym, ◌∙◌, ap, List, some, arith}
use cloudtty.Cluster.{Env}
use cloudtty.WorkerPool.Running.{Running, finishing, loop_returned, main_returned, Choice, turn}
use cloudtty.Controller.Sync.{Controller}
use cloudtty.Controller.Running.{
  Operator, Move, of_pool, reconciles, finds_shut, is_heard, selects, shuts_down, worker_at, move,
  Moves, stay, then_move,
}
use cloudtty.Controller.Running.Steps.{
  Puts, reconciles-Puts, finds_shut-Puts, is_heard-Puts, selects-Puts,
}
use cloudtty.Controller.Running.Workers.{put_worker-keeps, all_returned-at}

-- A worker of the controller is at a send, the receiver has returned, and `Run` has not.
pub record HangsAt {E : Env} (i n : ℕ) (o : Operator E) : Type 0 where
  pub sends : worker_at i o.workers ≡ some (finishing (suc n))
  pub unheard : o.pool.requests ≡ loop_returned
  pub waits : o.main ≢ main_returned

module _ (E : Env) (c : Controller) where
  turn-unheard :
      (choice : Choice) (s t : Running E)
      → turn E c.pool choice s ≡ some t
      → s.requests ≡ loop_returned
      → t.requests ≡ loop_returned
  unfolding turn
  turn-unheard choice s t e h = ground arith

  HangsAt-put : (i n : ℕ) (o p : Operator E) → HangsAt i n o → Puts o p → HangsAt i n p
  HangsAt-put i n o p h put = record {
    sends =
        ap (worker_at i) put.put
        ∙ put_worker-keeps o.workers i put.place put.after elsewhere
        ∙ h.sends;
    unheard = put.unheard h.unheard;
    waits = λ e. h.waits (sym put.same_main ∙ e);
  }
    where
      other : put.before ≢ finishing (suc n)
      other e = let open_ = put.heard n e in let gone = h.unheard in cc

      elsewhere : worker_at i o.workers ≢ worker_at put.place o.workers
      elsewhere e = let there = put.stands in let here = h.sends in other cc

  move-HangsAt :
      (i n : ℕ) (m : Move) (o p : Operator E)
      → move E c m o ≡ some p
      → HangsAt i n o
      → HangsAt i n p
  unfolding move
  move-HangsAt i n (of_pool choice) o p e h = ground (arith, turn-unheard choice o.pool p.pool)
  move-HangsAt i n (reconciles j key) o p e h =
      HangsAt-put i n o p h (reconciles-Puts E c o p j key e)
  move-HangsAt i n (finds_shut j) o p e h = HangsAt-put i n o p h (finds_shut-Puts E c o p j e)
  move-HangsAt i n (is_heard j) o p e h = HangsAt-put i n o p h (is_heard-Puts E c o p j e)
  move-HangsAt i n (selects j) o p e h = HangsAt-put i n o p h (selects-Puts E c o p j e)
  move-HangsAt i n shuts_down o p e h =
      let last = all_returned-at o.workers i (finishing (suc n)) in ground (arith, last)

  pub Moves-HangsAt :
      {ms : List Move} {o p : Operator E} (i n : ℕ)
      → Moves E c o ms p
      → HangsAt i n o
      → HangsAt i n p
  Moves-HangsAt i n stay h = h
  Moves-HangsAt {o = o} i n (then_move {p = p} m e rest) h =
      Moves-HangsAt i n rest (move-HangsAt i n m o p e h)
