-- ===== src/WorkerPool/Running.antt =====
-- pkg/workerpool/worker_pool.go: `run` with its three goroutines `worker`, `tryHandleRequestQueue` and
-- `tryScaleInWorkerQueue`, their select loops, the unbuffered channel `matchRequestSignal`, and the
-- shutdown. The callers of `Borrow` and `Back`, and the informer, are the other goroutines.
--
-- A state says where each goroutine stands. A turn is one goroutine's move, or two when a send meets
-- its receiver. An operation runs in one turn up to its sends, which it makes last; the calls of
-- `Forget` and `Done` that follow them are seen by no other goroutine. The operations on the world
-- are those of the other modules. What the rate-limited work queue hands out is a choice.
pub mod Sending
pub mod Stopping
pub mod Keeping
pub mod Queues
pub mod Returning
pub mod Late
pub mod Exclusive
use cloudtty.Base.{
  ℕ, zero, suc, ◌+◌, ◌≡◌, String, Bool, true, false, List, [], ◌∷◌, Option, none, some,
  if◌then◌else◌,
}
use cloudtty.Base.Result.{Error, panic, Result, ok, err}
use cloudtty.Objects.{Informed, Pod}
use cloudtty.Cluster.{Env}
use cloudtty.Cluster.Monad.{Request, Event, queue_call, match_request_signal, World}
use cloudtty.WorkerPool.Lending.{Pool, borrow, back}
use cloudtty.WorkerPool.Serving.{enqueue, process_next_cluster, handle_request_queue}
use cloudtty.WorkerPool.Scaling.{scale_in_worker_queue}
use cloudtty.WorkerPool.Invariant.Histories.{start}

-- `worker`: at `Get`; after a key, with the sends that are left before the select; or at its end.
pub data Worker : Type 0 where
  getting worker_returned : Worker
  finishing : ℕ → Worker

-- `tryHandleRequestQueue`: at the select, in a branch that calls `handleRequestQueue`, or at the end.
pub data Loop : Type 0 where
  selecting handling loop_returned : Loop

-- `tryScaleInWorkerQueue`: at the select, whose branch runs in the same turn, or at the end.
pub data Scaling : Type 0 where
  ticking scaling_returned : Scaling

-- `run`: at `<-stopCh`, at `waitGroup.Wait`, or at its end.
pub data Main : Type 0 where
  running stopping main_returned : Main

-- `clients` counts the callers of `Borrow` and `Back` that are at a send. The world has no calls
-- between two turns. `crashed`: a goroutine has panicked.
pub record Running (E : Env) : Type 0 where
  pub world : World E
  pub stopped : Bool
  pub main : Main
  pub worker : Worker
  pub requests : Loop
  pub scaling : Scaling
  pub clients : ℕ
  pub crashed : Bool

pub data Choice : Type 0 where
  stops : Choice
  notifies : Informed Pod → Choice
  borrows : Request → Choice
  backs : Pod → Choice
  gets : Option String → Choice
  goes_on : Choice
  ticks receives_worker receives_client handles leaves : Choice
  scales leaves_scaling : Choice
  goes_down : Choice

abbrev pub signals : List Event → ℕ
signals [] = 0
signals (queue_call _ _ ∷ events) = signals events
signals (match_request_signal ∷ events) = suc (signals events)

abbrev pub panics : {A : Type 0} → Result A → Bool
panics (err panic) = true
panics _ = false

module _ {E : Env} where
  -- The world after an operation.
  unfoldable pub settled : {A : Type 0} → Running E → Result A × World E → Running E
  settled s out = record s { world = record out.1 { events = [] }; crashed = panics out.0 }

  unfoldable pub called : {A : Type 0} → Running E → Result A × World E → Running E
  unfolding settled
  called s out = record (settled s out) { clients = s.clients + signals out.1.events }

  unfoldable pub processed : {A : Type 0} → Running E → Result A × World E → Running E
  unfolding settled
  processed s out = record (settled s out) { worker = finishing (signals out.1.events) }

  -- `Get` says that the queue is shut down only when it is.
  unfoldable pub shut_worker : Main → Running E → Option (Running E)
  shut_worker running s = none
  shut_worker _ s = some (record s { worker = worker_returned })

  -- The select of `worker`.
  unfoldable pub check_stop : Worker → Running E → Option (Running E)
  check_stop (finishing zero) s =
      some (record s { worker = if s.stopped then worker_returned else getting })
  check_stop _ s = none

  unfoldable pub tick : Loop → Running E → Option (Running E)
  tick selecting s = some (record s { requests = handling })
  tick _ s = none

  unfoldable pub receive_worker : Loop → Worker → Running E → Option (Running E)
  receive_worker selecting (finishing (suc n)) s =
      some (record s { requests = handling; worker = finishing n })
  receive_worker _ _ s = none

  unfoldable pub receive_client : Loop → ℕ → Running E → Option (Running E)
  receive_client selecting (suc n) s = some (record s { requests = handling; clients = n })
  receive_client _ _ s = none

  unfoldable pub leave_requests : Bool → Loop → Running E → Option (Running E)
  leave_requests true selecting s = some (record s { requests = loop_returned })
  leave_requests _ _ s = none

  unfoldable pub leave_scaling : Bool → Scaling → Running E → Option (Running E)
  leave_scaling true ticking s = some (record s { scaling = scaling_returned })
  leave_scaling _ _ s = none

  -- `waitGroup.Wait` returns when the three goroutines have.
  unfoldable pub wait : Worker → Loop → Scaling → Running E → Option (Running E)
  wait worker_returned loop_returned scaling_returned s = some (record s { main = main_returned })
  wait _ _ _ s = none

  unfoldable pub go_down : Main → Bool → Running E → Option (Running E)
  unfolding wait
  go_down running true s = some (record s { main = stopping })
  go_down running false s = none
  go_down stopping _ s = wait s.worker s.requests s.scaling s
  go_down main_returned _ s = none

module _ (E : Env) (pool : Pool) where
  unfoldable pub get_key : Worker → Option String → Running E → Option (Running E)
  unfolding processed shut_worker
  get_key getting (some key) s = some (processed s (process_next_cluster E pool key s.world))
  get_key getting none s = shut_worker s.main s
  get_key _ _ s = none

  -- `handleRequestQueue` sends nothing.
  unfoldable pub handle : Loop → Running E → Option (Running E)
  unfolding settled
  handle handling s =
      some (record (settled s (handle_request_queue E s.world)) { requests = selecting })
  handle _ s = none

  unfoldable pub scale : Scaling → Running E → Option (Running E)
  unfolding settled
  scale ticking s = some (settled s (scale_in_worker_queue E pool s.world))
  scale _ s = none

  unfoldable pub turn_live : Choice → Running E → Option (Running E)
  unfolding called settled get_key check_stop tick receive_worker receive_client handle
      leave_requests scale leave_scaling go_down
  turn_live stops s = some (record s { stopped = true })
  turn_live (notifies event) s = some (settled s (enqueue E pool event s.world))
  turn_live (borrows req) s = some (called s (borrow E req s.world))
  turn_live (backs worker) s = some (called s (back E pool worker s.world))
  turn_live (gets answer) s = get_key s.worker answer s
  turn_live goes_on s = check_stop s.worker s
  turn_live ticks s = tick s.requests s
  turn_live receives_worker s = receive_worker s.requests s.worker s
  turn_live receives_client s = receive_client s.requests s.clients s
  turn_live handles s = handle s.requests s
  turn_live leaves s = leave_requests s.stopped s.requests s
  turn_live scales s = scale s.scaling s
  turn_live leaves_scaling s = leave_scaling s.stopped s.scaling s
  turn_live goes_down s = go_down s.main s.stopped s

  -- `none`: the choice is not open. After a panic none is.
  unfoldable pub turn : Choice → Running E → Option (Running E)
  unfolding turn_live
  turn c s = if s.crashed then none else turn_live c s

  -- A sequence of turns, and the state after it.
  pub data Turns : Running E → List Choice → Running E → Type 0 where
    here : {s : Running E} → Turns s [] s
    next :
        {s t u : Running E} {cs : List Choice} (c : Choice)
        → turn c s ≡ some t
        → Turns t cs u
        → Turns s (c ∷ cs) u

-- `New`, and `run` when its goroutines have started.
unfoldable pub begin : (E : Env) → Pool → E.State → Running E
begin E pool s = record {
  world = start E pool s;
  stopped = false;
  main = running;
  worker = getting;
  requests = selecting;
  scaling = ticking;
  clients = 0;
  crashed = false;
}
