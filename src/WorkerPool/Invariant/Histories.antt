-- ===== src/WorkerPool/Invariant/Histories.antt =====
-- Any history of the pool.
use cloudtty.Base.{String, List, [], ◌∷◌}
use cloudtty.Objects.{Informed, Pod}
use cloudtty.Queue.{new_queue}
use cloudtty.Queue.Invariant.{new_queue-Inv}
use cloudtty.Cluster.{Env, RetryIsLawful}
use cloudtty.Cluster.Monad.{Request, World, string_item, request_item}
use cloudtty.WorkerPool.Lending.{Pool, borrow, back}
use cloudtty.WorkerPool.Serving.{enqueue, process_next_cluster, handle_request_queue}
use cloudtty.WorkerPool.Scaling.{scale_in_worker_queue}
use cloudtty.WorkerPool.Invariant.Rules.{QueuesInv, QueuesInv-IsKept}
use cloudtty.WorkerPool.Invariant.Lending.{borrow-Keeps, back-Keeps}
use cloudtty.WorkerPool.Invariant.Loops.{
  AnyKey-KeyMay, enqueue-Keeps, process_next_cluster-Keeps, handle_request_queue-Keeps,
  scale_in_worker_queue-Keeps,
}

-- What the controller, the informer and the goroutines of `run` call.
pub data Operation : Type 0 where
  borrows : Request → Operation
  backs : Pod → Operation
  enqueues : Informed Pod → Operation
  processes : String → Operation
  handles scales : Operation

module _ (E : Env) (pool : Pool) where
  pub step : Operation → World E → World E
  step (borrows req) w = (borrow E req w).1
  step (backs worker) w = (back E pool worker w).1
  step (enqueues pod) w = (enqueue E pool pod w).1
  step (processes key) w = (process_next_cluster E pool key w).1
  step handles w = (handle_request_queue E w).1
  step scales w = (scale_in_worker_queue E pool w).1

  pub run : List Operation → World E → World E
  run [] w = w
  run (op ∷ ops) w = run ops (step op w)

  -- `New`: both queues are empty.
  unfoldable pub start : E.State → World E
  start s = record { worker_queue = new_queue; request_queue = new_queue; events = []; state = s }

  module _ (L : RetryIsLawful E) where
    pub step-QueuesInv : (op : Operation) (w : World E) → QueuesInv w → QueuesInv (step op w)
    unfolding step
    step-QueuesInv (borrows req) w h = (borrow-Keeps E L QueuesInv-IsKept req).at w h
    step-QueuesInv (backs worker) w h = (back-Keeps E L QueuesInv-IsKept pool worker tt).at w h
    step-QueuesInv (enqueues pod) w h = (enqueue-Keeps E L QueuesInv-IsKept pool pod).at w h
    step-QueuesInv (processes key) w h =
        (process_next_cluster-Keeps E L QueuesInv-IsKept pool key (AnyKey-KeyMay E _)).at w h
    step-QueuesInv handles w h = (handle_request_queue-Keeps E L QueuesInv-IsKept).at w h
    step-QueuesInv scales w h = (scale_in_worker_queue-Keeps E L QueuesInv-IsKept pool).at w h

    run-QueuesInv : (ops : List Operation) (w : World E) → QueuesInv w → QueuesInv (run ops w)
    unfolding run
    run-QueuesInv [] w h = h
    run-QueuesInv (op ∷ ops) w h = run-QueuesInv ops (step op w) (step-QueuesInv op w h)

    pub start-QueuesInv : (s : E.State) → QueuesInv (start s)
    unfolding start
    start-QueuesInv s = record { of_workers = new_queue-Inv; of_requests = new_queue-Inv }

    -- In a new pool, after any sequence of operations and whatever the cluster answers, no worker key
    -- and no request waits twice, and each queue's set holds exactly the items of its list.
    -- `RetryOnConflict` is assumed to behave as documented.
    pub run-start-QueuesInv : (ops : List Operation) (s : E.State) → QueuesInv (run ops (start s))
    run-start-QueuesInv ops s = run-QueuesInv ops (start s) (start-QueuesInv s)
