-- ===== src/Controller/Running.antt =====
-- pkg/controllers/cloudshell_controller.go: `Run` with its goroutines `worker`, beside the goroutines
-- of the pool and the informer. The controller's goroutines are the callers of `Borrow` and `Back`.
--
-- A reconcile runs in one turn, its sends on `matchRequestSignal` stand at its end, and nothing comes
-- between its steps. In the source calls can follow a send: the rest of `removeCloudshell`, and
-- `Borrow` after a `Back` that sends, which works on the pool's queues. That interleaving is left out.
-- What the rate-limited work queue hands out is a choice.
pub mod Workers
pub mod Steps
pub mod Queues
pub mod Ending
pub mod Shutdown
pub mod Late
pub mod Finishing
use cloudtty.Base.{
  ℕ, zero, suc, ◌≡◌, String, Bool, true, false, List, [], ◌∷◌, Option, none, some, if◌then◌else◌,
}
use cloudtty.Base.Result.{Result}
use cloudtty.Cluster.{Env}
use cloudtty.Cluster.Monad.{World}
use cloudtty.WorkerPool.Running.{
  Running, Worker, getting, worker_returned, finishing, Loop, selecting, handling, Main, running,
  stopping, main_returned, Choice, borrows, backs, receives_client, signals, settled, turn, begin,
}
use cloudtty.Controller.Sync.{Controller}
use cloudtty.Controller.Events.{process_next_item}

-- The goroutines of the pool, those of the controller, and the controller's `Run`.
pub record Operator (E : Env) : Type 0 where
  pub pool : Running E
  pub workers : List Worker
  pub main : Main

pub data Move : Type 0 where
  of_pool : Choice → Move
  reconciles : ℕ → String → Move
  finds_shut is_heard selects : ℕ → Move
  shuts_down : Move

abbrev pub worker_at : ℕ → List Worker → Option Worker
worker_at n [] = none
worker_at zero (w ∷ ws) = some w
worker_at (suc n) (w ∷ ws) = worker_at n ws

abbrev pub put_worker : ℕ → Worker → List Worker → List Worker
put_worker n v [] = []
put_worker zero v (w ∷ ws) = v ∷ ws
put_worker (suc n) v (w ∷ ws) = w ∷ put_worker n v ws

abbrev pub all_returned : List Worker → Bool
all_returned [] = true
all_returned (worker_returned ∷ ws) = all_returned ws
all_returned (_ ∷ ws) = false

-- The pool's turns: those of its goroutines and of the informer, and the closing of the stop channel.
abbrev pub is_own : Choice → Bool
is_own (borrows _) = false
is_own (backs _) = false
is_own receives_client = false
is_own _ = true

-- `New` of the pool and of the controller, and their `Run` when their goroutines have started.
abbrev pub fresh_workers : ℕ → List Worker
fresh_workers zero = []
fresh_workers (suc n) = getting ∷ fresh_workers n

module _ {E : Env} where
  unfoldable pub with_pool : Operator E → Option (Running E) → Option (Operator E)
  with_pool o none = none
  with_pool o (some s) = some (record o { pool = s })

  unfoldable pub reconciled : {A : Type 0} → ℕ → Operator E → Result A × World E → Operator E
  unfolding settled
  reconciled i o out = record o {
    pool = settled o.pool out;
    workers = put_worker i (finishing (signals out.1.events)) o.workers;
  }

  -- `Get` says that the queue is shut down only when it is.
  unfoldable pub find_shut : ℕ → Option Worker → Main → Operator E → Option (Operator E)
  find_shut i (some getting) stopping o =
      some (record o { workers = put_worker i worker_returned o.workers })
  find_shut i (some getting) main_returned o =
      some (record o { workers = put_worker i worker_returned o.workers })
  find_shut i _ _ o = none

  -- A send of the worker meets the pool's `tryHandleRequestQueue`.
  unfoldable pub hear : ℕ → Option Worker → Loop → Operator E → Option (Operator E)
  hear i (some (finishing (suc n))) selecting o = some (record o {
    pool = record (o.pool) { requests = handling };
    workers = put_worker i (finishing n) o.workers;
  })
  hear i _ _ o = none

  -- The select of `worker`.
  unfoldable pub select : ℕ → Option Worker → Operator E → Option (Operator E)
  select i (some (finishing zero)) o = some (record o {
    workers = put_worker i (if o.pool.stopped then worker_returned else getting) o.workers;
  })
  select i _ o = none

  -- `wg.Wait` returns when every worker has.
  unfoldable pub wait_all : Bool → Operator E → Option (Operator E)
  wait_all true o = some (record o { main = main_returned })
  wait_all false o = none

  unfoldable pub shut_down : Main → Bool → Operator E → Option (Operator E)
  unfolding wait_all
  shut_down running true o = some (record o { main = stopping })
  shut_down running false o = none
  shut_down stopping _ o = wait_all (all_returned o.workers) o
  shut_down main_returned _ o = none

module _ (E : Env) (c : Controller) where
  unfoldable pub reconcile_key : ℕ → String → Option Worker → Operator E → Option (Operator E)
  unfolding reconciled
  reconcile_key i key (some getting) o =
      some (reconciled i o (process_next_item E c key o.pool.world))
  reconcile_key i key _ o = none

  unfoldable pub move_live : Move → Operator E → Option (Operator E)
  unfolding with_pool find_shut hear select shut_down reconcile_key
  move_live (of_pool choice) o =
      if is_own choice then with_pool o (turn E c.pool choice o.pool) else none
  move_live (reconciles i key) o = reconcile_key i key (worker_at i o.workers) o
  move_live (finds_shut i) o = find_shut i (worker_at i o.workers) o.main o
  move_live (is_heard i) o = hear i (worker_at i o.workers) o.pool.requests o
  move_live (selects i) o = select i (worker_at i o.workers) o
  move_live shuts_down o = shut_down o.main o.pool.stopped o

  -- `none`: the move is not open. After a panic none is.
  unfoldable pub move : Move → Operator E → Option (Operator E)
  unfolding move_live
  move m o = if o.pool.crashed then none else move_live m o

  pub data Moves : Operator E → List Move → Operator E → Type 0 where
    stay : {o : Operator E} → Moves o [] o
    then_move :
        {o p q : Operator E} {ms : List Move} (m : Move)
        → move m o ≡ some p
        → Moves p ms q
        → Moves o (m ∷ ms) q

  -- `StartControllers` asks for one worker.
  unfoldable pub begin_operator : ℕ → E.State → Operator E
  begin_operator workers s = record {
    pool = begin E c.pool s;
    workers = fresh_workers workers;
    main = running;
  }
