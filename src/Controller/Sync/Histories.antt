-- ===== src/Controller/Sync/Histories.antt =====
-- Any history of the operator: the controller's reconciles between the pool's operations.
use cloudtty.Base.{String, List, [], ◌∷◌}
use cloudtty.Cluster.{Env, RetryIsLawful}
use cloudtty.Cluster.Monad.{World, string_item, request_item}
use cloudtty.WorkerPool.Invariant.Rules.{QueuesInv}
use cloudtty.WorkerPool.Invariant.Histories as Pool
use cloudtty.Controller.Sync.{Controller}
use cloudtty.Controller.Events.{process_next_item}
use cloudtty.Controller.Sync.Keeping.{process_next_item-Keeps}

-- An operation of the pool, or the reconcile of a key.
pub data Action : Type 0 where
  pool_does : Pool.Operation → Action
  syncs : String → Action

module _ (E : Env) (c : Controller) where
  pub act : Action → World E → World E
  act (pool_does op) w = Pool.step E c.pool op w
  act (syncs key) w = (process_next_item E c key w).1

  pub history : List Action → World E → World E
  history [] w = w
  history (a ∷ actions) w = history actions (act a w)

  module _ (L : RetryIsLawful E) where
    act-QueuesInv : (a : Action) (w : World E) → QueuesInv w → QueuesInv (act a w)
    unfolding act
    act-QueuesInv (pool_does op) w h = Pool.step-QueuesInv E c.pool L op w h
    act-QueuesInv (syncs key) w h = (process_next_item-Keeps E L c key).at w h

    history-QueuesInv :
        (actions : List Action) (w : World E) → QueuesInv w → QueuesInv (history actions w)
    unfolding history
    history-QueuesInv [] w h = h
    history-QueuesInv (a ∷ actions) w h = history-QueuesInv actions (act a w) (act-QueuesInv a w h)

    -- From a new pool on, after any sequence of operations of the pool and reconciles of the
    -- controller, and whatever the cluster answers, no worker key and no request waits twice, and each
    -- queue's set holds exactly the items of its list. `RetryOnConflict` is assumed to behave as
    -- documented.
    pub history-start-QueuesInv :
        (actions : List Action) (s : E.State) → QueuesInv (history actions (Pool.start E c.pool s))
    history-start-QueuesInv actions s =
        history-QueuesInv actions _ (Pool.start-QueuesInv E c.pool L s)
