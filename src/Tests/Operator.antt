-- ===== src/Tests/Operator.antt =====
-- The theorems on the goroutines of the controller and of the pool, on the small cluster.
use cloudtty.Base.{◌≡◌, refl, true, false, List, [], ◌∷◌, none, some}
use cloudtty.Base.Result.{ok}
use cloudtty.Objects.{CloudShell}
use cloudtty.Queue
use cloudtty.Queue.{new_queue}
use cloudtty.Cluster.Monad.{
  World, ◌>>=◌, queue_call, match_request_signal, done, string_item, request_item,
}
use cloudtty.WorkerPool.Invariant.Rules.{QueuesInv}
use cloudtty.WorkerPool.Invariant.Histories.{start}
use cloudtty.WorkerPool.Matching.{find_worker}
use cloudtty.WorkerPool.Running.{
  ticking, getting, finishing, handling, selecting, loop_returned, running, stopping, stops, begin,
  settled, turn,
}
use cloudtty.Controller.Defaults.{
  ensure_cloud_shell, ensured, set_defaults_cloud_shell, set_defaults_spec, set_image,
  with_finalizer,
}
use cloudtty.Controller.Sync.Waiting.{waits, request_of}
use cloudtty.Controller.Events.{process_next_item}
use cloudtty.Controller.Events.Outcomes.{process_next_item_settles}
use cloudtty.Controller.Running.{
  Operator, Move, of_pool, reconciles, is_heard, move, reconciled, Moves, stay, then_move,
  begin_operator,
}
use cloudtty.Controller.Running.Late.{
  IsUnserved, sync_handler-waits, reconcile_move, late_reconcile_hangs,
}
use cloudtty.Controller.Running.Shutdown.{HangsAt}
use cloudtty.Controller.Running.Queues.{begin_operator-QueuesInv}
use cloudtty.Controller.Running.Ending.{EndsInOrder, begin_operator-EndsInOrder}
use cloudtty.Tests.Shells.{shell, controller}
use cloudtty.Controller.Labels.{pod_label}
use cloudtty.Controller.Events.Owners.{events_follow_owner, ToOwner, ToPool}
use cloudtty.WorkerPool.Lending.{bind_worker, free_worker}
use cloudtty.Tests.Demo.{demo, demo-RetryIsLawful, pool, request, ready_pod}

-- The shell has its finalizer and its defaults.
abbrev filled : CloudShell
filled = record shell { finalizers = "cloudtty.io/cloudshell-controller" ∷ [] }

abbrev first_world : World demo
first_world = record {
  worker_queue = record { queue = []; dirty = [] };
  request_queue = record { queue = []; dirty = [] };
  events = [];
  state = record { time = 100; conflicts = 0; pod = none; shell = some filled };
}

abbrev first : Operator demo
first = record {
  pool = record {
    world = first_world;
    stopped = false;
    main = running;
    worker = getting;
    requests = selecting;
    scaling = ticking;
    clients = 0;
    crashed = false;
  };
  workers = getting ∷ [];
  main = running;
}

-- No pod waits for the shell.
unserved : IsUnserved demo controller "shell" filled "{}" first_world first_world
unfolding ensure_cloud_shell ensured set_defaults_cloud_shell set_defaults_spec set_image
    with_finalizer ◌>>=◌ pod_label Queue.all Queue.copy find_worker new_queue
unserved = record {
  namespace = "default";
  name = "shell";
  shell = filled;
  state = first_world.state;
  split = refl;
  listed = refl;
  kept = refl;
  ensured = refl;
  no_ttl = refl;
  unbound = refl;
  printed = refl;
  nobody = refl;
}

abbrev asked_world : World demo
asked_world = record first_world {
  request_queue = record {
    queue = request_of demo controller filled "{}" ∷ [];
    dirty = request_of demo controller filled "{}" ∷ [];
  };
  events = queue_call 0 (done "shell") ∷ match_request_signal ∷ [];
}

outcome : process_next_item demo controller "shell" first_world ≡ (ok true, asked_world)
unfolding new_queue Queue.add
outcome =
    process_next_item_settles demo controller "shell" (ok none) first_world
      (waits demo controller first_world (request_of demo controller filled "{}"))
      (sync_handler-waits demo controller "shell" filled "{}" first_world first_world unserved)
      (λ h. cc)

abbrev asked : Operator demo
asked = record first {
  pool = record (first.pool) { world = record asked_world { events = [] } };
  workers = finishing 1 ∷ [];
}

abbrev heard : Operator demo
heard = record asked {
  pool = record (asked.pool) { requests = handling };
  workers = finishing 0 ∷ [];
}

abbrev stopped : Operator demo
stopped = record heard { pool = record (heard.pool) { stopped = true } }

abbrev moves : List Move
moves = reconciles 0 "shell" ∷ is_heard 0 ∷ of_pool stops ∷ []

asks : move demo controller (reconciles 0 "shell") first ≡ some asked
unfolding reconciled settled
asks = reconcile_move demo controller 0 "shell" first (ok true) asked_world refl refl outcome

way : Moves demo controller first moves stopped
unfolding move turn
way = then_move (reconciles 0 "shell") asks (
    then_move {o = asked} {p = heard} (is_heard 0) refl
      (then_move {o = heard} {p = stopped} (of_pool stops) refl stay))

begin_operator-QueuesInv_example : QueuesInv stopped.pool.world
unfolding begin_operator begin start new_queue
begin_operator-QueuesInv_example =
    begin_operator-QueuesInv demo controller demo-RetryIsLawful 1 first_world.state way

begin_operator-EndsInOrder_example : EndsInOrder stopped
unfolding begin_operator begin start new_queue
begin_operator-EndsInOrder_example =
    begin_operator-EndsInOrder demo controller 1 first_world.state way

-- The stop channel is closed, and the worker has its send left.
abbrev closing : Operator demo
closing = record asked { pool = record (asked.pool) { stopped = true }; main = stopping }

-- The pool's receiver has gone before the shell is reconciled.
abbrev late : Operator demo
late = record first {
  pool = record (first.pool) { stopped = true; requests = loop_returned };
  main = stopping;
}

abbrev later : Operator demo
later = record late {
  pool = record (late.pool) { world = record asked_world { events = [] } };
  workers = finishing 1 ∷ [];
}

asks_late : move demo controller (reconciles 0 "shell") late ≡ some later
unfolding reconciled settled
asks_late = reconcile_move demo controller 0 "shell" late (ok true) asked_world refl refl outcome

late_reconcile_hangs_example : HangsAt 0 0 later
late_reconcile_hangs_example =
    late_reconcile_hangs demo controller {q = later} 0 "shell" filled "{}" late first_world refl
      (λ e. cc) refl refl unserved refl asks_late stay

events_follow_owner_example :
    ToOwner demo pool controller (bind_worker demo request ready_pod) first_world "shell"
    × ToPool demo pool controller (free_worker demo ready_pod) first_world
events_follow_owner_example =
    events_follow_owner demo pool controller request ready_pod first_world tt refl
