-- ===== src/Controller/Running/Queues.antt =====
-- The pool's two queues, with every interleaving of the pool's and the controller's goroutines.
use cloudtty.Base.{ℕ, List, some, ◌≡◌, arith}
use cloudtty.Cluster.{Env, RetryIsLawful}
use cloudtty.WorkerPool.Invariant.Rules.{QueuesInv, QueuesInv-IsLocal, QueuesInv-IsKept}
use cloudtty.WorkerPool.Invariant.Histories.{start-QueuesInv}
use cloudtty.WorkerPool.Running.{begin}
use cloudtty.WorkerPool.Running.Keeping.{turn-keeps}
use cloudtty.WorkerPool.Running.Queues.{any_choice}
use cloudtty.Controller.Sync.{Controller}
use cloudtty.Controller.Sync.Keeping.{process_next_item-Keeps}
use cloudtty.Controller.Running.{
  Operator, Move, of_pool, reconciles, finds_shut, is_heard, selects, shuts_down, move, Moves, stay,
  then_move, begin_operator,
}

module _ (E : Env) (c : Controller) (L : RetryIsLawful E) where
  move-QueuesInv :
      (m : Move) (o p : Operator E)
      → move E c m o ≡ some p
      → QueuesInv o.pool.world
      → QueuesInv p.pool.world
  unfolding move
  move-QueuesInv (of_pool choice) o p e h = ground (
    arith,
    h,
    turn-keeps E L QueuesInv-IsKept c.pool choice o.pool p.pool,
    any_choice E c.pool L choice,
  )
  move-QueuesInv (reconciles i key) o p e h =
      ground (
        arith,
        QueuesInv-IsLocal.with_none _ ((process_next_item-Keeps E L c key).at o.pool.world h),
      )
  move-QueuesInv (finds_shut i) o p e h = ground (arith, h)
  move-QueuesInv (is_heard i) o p e h = ground (arith, h)
  move-QueuesInv (selects i) o p e h = ground (arith, h)
  move-QueuesInv shuts_down o p e h = ground (arith, h)

  Moves-QueuesInv :
      {ms : List Move} {o p : Operator E}
      → Moves E c o ms p
      → QueuesInv o.pool.world
      → QueuesInv p.pool.world
  Moves-QueuesInv stay h = h
  Moves-QueuesInv {o = o} (then_move {p = p} m e rest) h =
      Moves-QueuesInv rest (move-QueuesInv m o p e h)

  -- In every state that the goroutines of a new pool, any number of the controller's workers and the
  -- informers can bring about, by any sequence of turns and whatever the cluster and the work queues
  -- answer, no worker key and no request waits twice, and each queue's set holds exactly the items of
  -- its list. `RetryOnConflict` is assumed to behave as documented.
  pub begin_operator-QueuesInv :
      {ms : List Move} {p : Operator E} (workers : ℕ) (state : E.State)
      → Moves E c (begin_operator E c workers state) ms p
      → QueuesInv p.pool.world
  unfolding begin_operator begin
  begin_operator-QueuesInv workers state rest =
      Moves-QueuesInv rest (start-QueuesInv E c.pool L state)
