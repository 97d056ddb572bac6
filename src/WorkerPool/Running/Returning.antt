-- ===== src/WorkerPool/Running/Returning.antt =====
-- What holds when the pool's goroutines, and `run`, have returned.
use cloudtty.Base.{◌≡◌, ◌≢◌, true, List, some, arith}
use cloudtty.Cluster.{Env}
use cloudtty.WorkerPool.Lending.{Pool}
use cloudtty.WorkerPool.Running.{
  Running, worker_returned, loop_returned, scaling_returned, running, main_returned, Choice, turn,
  Turns, here, next, begin,
}

-- Nothing ends before the stop channel is closed, and `run` ends last.
pub record IsOrderly {E : Env} (s : Running E) : Type 0 where
  pub down_stopped : s.main ≢ running → s.stopped ≡ true
  pub worker_stopped : s.worker ≡ worker_returned → s.stopped ≡ true
  pub requests_stopped : s.requests ≡ loop_returned → s.stopped ≡ true
  pub scaling_stopped : s.scaling ≡ scaling_returned → s.stopped ≡ true
  pub worker_first : s.main ≡ main_returned → s.worker ≡ worker_returned
  pub requests_first : s.main ≡ main_returned → s.requests ≡ loop_returned
  pub scaling_first : s.main ≡ main_returned → s.scaling ≡ scaling_returned

module _ (E : Env) (pool : Pool) where
  pub turn-IsOrderly :
      (c : Choice) (s t : Running E) → turn E pool c s ≡ some t → IsOrderly s → IsOrderly t
  unfolding turn
  turn-IsOrderly c s t e h = ground arith

  Turns-IsOrderly :
      {cs : List Choice} {s t : Running E} → Turns E pool s cs t → IsOrderly s → IsOrderly t
  Turns-IsOrderly here h = h
  Turns-IsOrderly {s} (next {t} c e p) h = Turns-IsOrderly p (turn-IsOrderly c s t e h)

  -- In every state that a new pool can come to, no goroutine of the pool has returned before the stop
  -- channel is closed, and when `run` has returned its three goroutines have.
  pub begin-IsOrderly :
      {cs : List Choice} {t : Running E} (state : E.State)
      → Turns E pool (begin E pool state) cs t
      → IsOrderly t
  unfolding begin
  begin-IsOrderly state p = Turns-IsOrderly p (ground arith)
