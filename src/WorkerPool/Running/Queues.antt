-- ===== src/WorkerPool/Running/Queues.antt =====
-- The pool's two queues under every interleaving of its goroutines, callers and the informer.
use cloudtty.Base.{List, [], ◌∷◌, none, some}
use cloudtty.Cluster.{Env, RetryIsLawful}
use cloudtty.WorkerPool.Lending.{Pool}
use cloudtty.WorkerPool.Invariant.Rules.{QueuesInv, QueuesInv-IsKept, AnyKey}
use cloudtty.WorkerPool.Invariant.Loops.{AnyKey-KeyMay}
use cloudtty.WorkerPool.Invariant.Histories.{start-QueuesInv}
use cloudtty.WorkerPool.Running.{Running, Choice, backs, gets, Turns, begin}
use cloudtty.WorkerPool.Running.Keeping.{Allows, AllAllowed, Turns-keeps}

module _ (E : Env) (pool : Pool) (L : RetryIsLawful E) where
  pub any_choice : (c : Choice) → Allows E AnyKey c
  any_choice (backs worker) = tt
  any_choice (gets none) = tt
  any_choice (gets (some key)) = AnyKey-KeyMay E _
  any_choice _ = tt

  all_allowed : (cs : List Choice) → AllAllowed E AnyKey cs
  all_allowed [] = tt
  all_allowed (c ∷ cs) = (any_choice c, all_allowed cs)

  -- In every state that the goroutines of a new pool, the callers of `Borrow` and `Back` and the
  -- informer can bring about, by any sequence of turns and whatever the cluster and the work queue
  -- answer, no worker key and no request waits twice, and each queue's set holds exactly the items of
  -- its list. `RetryOnConflict` is assumed to behave as documented.
  pub begin-QueuesInv :
      {cs : List Choice} {t : Running E} (state : E.State)
      → Turns E pool (begin E pool state) cs t
      → QueuesInv t.world
  unfolding begin
  begin-QueuesInv {cs} state p =
      Turns-keeps E L QueuesInv-IsKept pool p (all_allowed cs) (start-QueuesInv E pool L state)
