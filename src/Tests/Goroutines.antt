-- ===== src/Tests/Goroutines.antt =====
-- The theorems on the goroutines of the pool, on the small cluster.
use cloudtty.Base.{◌≡◌, ◌≢◌, refl, ◌≤◌, true, false, List, [], ◌∷◌, some, contains, string_eq}
use cloudtty.Objects.{Pod}
use cloudtty.Queue
use cloudtty.Queue.{new_queue}
use cloudtty.Cluster.Monad.{Request, World, ◌>>=◌, string_item, request_item}
use cloudtty.Pods.{is_pod_ready}
use cloudtty.WorkerPool.Keys.{web_tty_image, worker_key}
use cloudtty.WorkerPool.Matching.{match_worker_for, find_worker}
use cloudtty.WorkerPool.Lending.{answer, refuse, borrow, lend}
use cloudtty.WorkerPool.Serving.{
  process_next_cluster, process_key, process_listed, settle_key, reconcile, reconcile_from,
  reconcile_live, offer_worker,
}
use cloudtty.WorkerPool.Serving.Taking.{borrow-taken, taken}
use cloudtty.WorkerPool.Invariant.Rules.{QueuesInv}
use cloudtty.WorkerPool.Running.{
  Running, getting, finishing, worker_returned, selecting, handling, loop_returned, ticking,
  running, stopping, main_returned, Choice, stops, gets, borrows, receives_client, called, goes_on,
  receives_worker, turn, processed, Turns, here, next,
}
use cloudtty.WorkerPool.Running.Sending.{CanReach}
use cloudtty.WorkerPool.Running.Stopping.{worker_stops, worker_turns, run_can_return, HasReturned}
use cloudtty.WorkerPool.Running.Exclusive.{lent_stays_away}
use cloudtty.WorkerPool.Running.Late.{late_worker_stuck}
use cloudtty.Tests.Pool.{waiting, waiting-Inv, bound, lent, borrowed}
use cloudtty.Tests.Demo.{demo, demo-RetryIsLawful, ready_pod, request, pool, cluster}

abbrev fresh : Running demo
fresh = record {
  world = record {
    worker_queue = record { queue = []; dirty = [] };
    request_queue = record { queue = []; dirty = [] };
    events = [];
    state = cluster 0;
  };
  stopped = false;
  main = running;
  worker = getting;
  requests = selecting;
  scaling = ticking;
  clients = 0;
  crashed = false;
}

-- The worker goroutine is at a send when the stop channel is closed.
abbrev sending : Running demo
sending = record fresh { stopped = true; main = stopping; worker = finishing 1 }

run_can_return_example : CanReach demo pool (HasReturned demo pool) sending
run_can_return_example = run_can_return demo pool 1 sending refl refl (λ e. cc) refl (λ e. cc)

-- The worker goroutine gets a key after the stop, and its send is received.
abbrev last_turns : List Choice
last_turns = gets (some "w1") ∷ receives_worker ∷ goes_on ∷ []

abbrev first_turns : List Choice
first_turns = stops ∷ last_turns

abbrev stopped : Running demo
stopped = record fresh { stopped = true }

abbrev with_worker : World demo
with_worker = record fresh.world {
  worker_queue = record { queue = "default//img//w1" ∷ []; dirty = "default//img//w1" ∷ [] };
}

abbrev got : Running demo
got = record stopped { world = with_worker; worker = finishing 1 }

abbrev received : Running demo
received = record got { worker = finishing 0; requests = handling }

abbrev last : Running demo
last = record received { worker = worker_returned }

got_first : turn demo pool (gets (some "w1")) stopped ≡ some got
unfolding turn processed process_next_cluster is_pod_ready worker_key Queue.add ◌>>=◌ process_key
    process_listed settle_key reconcile reconcile_from reconcile_live offer_worker
got_first = refl

last_way : Turns demo pool stopped last_turns last
unfolding turn
last_way = next (gets (some "w1")) got_first (
    next {s = got} {t = received} receives_worker refl
      (next {s = received} {t = last} goes_on refl here))

first_way : Turns demo pool fresh first_turns last
unfolding turn
first_way = next {s = fresh} {t = stopped} stops refl last_way

worker_stops_example : worker_turns last_turns ≤ 2
worker_stops_example = worker_stops demo pool {s = stopped} {t = last} refl last_way

abbrev late : Running demo
late = record stopped { main = stopping; requests = loop_returned }

abbrev after : Running demo
unfolding processed
after = processed late (process_next_cluster demo pool "w1" late.world)

late_worker_stuck_example : (after.worker ≡ finishing 1) × (after.main ≢ main_returned)
unfolding is_pod_ready turn
late_worker_stuck_example =
    late_worker_stuck demo pool {t = after} {u = after} "w1" "default" "w1" ready_pod late
      (cluster 0) refl (λ e. cc) refl refl refl refl refl refl refl refl here

-- The pod belongs to another shell.
abbrev owned_pod : Pod
owned_pod = record ready_pod { labels = some (("worker.cloudtty.io/owner-name", "another") ∷ []) }

abbrev empty_world : World demo
empty_world = record fresh.world { state = record (cluster 0) { pod = some owned_pod } }

borrow-taken_example :
    borrow demo request (process_next_cluster demo pool "w1" empty_world).1
    ≡ lend demo request owned_pod (taken demo pool "w1" owned_pod empty_world empty_world.state)
unfolding is_pod_ready web_tty_image Queue.all
borrow-taken_example =
    borrow-taken demo pool "w1" owned_pod request empty_world empty_world.state empty_world.state
      refl refl refl refl refl
      (record { namespace = refl; image = refl; image_set = refl; name = refl }) refl refl refl refl
      refl

abbrev stocked : Running demo
stocked = record fresh { world = waiting 0 }

stocked-QueuesInv : QueuesInv stocked.world
unfolding new_queue
stocked-QueuesInv = record {
  of_workers = waiting-Inv;
  of_requests = record { distinct = tt; distinct_dirty = tt; agrees = λ a. refl };
}

abbrev lent_out : Running demo
lent_out = record stocked { world = lent }

-- A second shell asks, and its request is looked at.
abbrev second_request : Request
second_request = record request { cloudshell = "second" }

abbrev asked : Running demo
asked = record lent_out {
  world = record lent {
    request_queue = record { queue = second_request ∷ []; dirty = second_request ∷ [] };
  };
  clients = 1;
}

abbrev heard : Running demo
heard = record asked { requests = handling; clients = 0 }

abbrev later_turns : List Choice
later_turns = borrows second_request ∷ receives_client ∷ []

asks : turn demo pool (borrows second_request) lent_out ≡ some asked
unfolding turn called new_queue borrow ◌>>=◌ answer match_worker_for find_worker Queue.all refuse
    Queue.add
asks = refl

later_way : Turns demo pool lent_out later_turns heard
unfolding turn
later_way =
    next (borrows second_request) asks (next {s = asked} {t = heard} receives_client refl here)

lent_stays_away_example : contains heard.world.worker_queue.queue (worker_key bound) ≡ false
lent_stays_away_example =
    lent_stays_away demo demo-RetryIsLawful pool request bound stocked lent stocked-QueuesInv
      borrowed (tt, (tt, tt)) later_way
