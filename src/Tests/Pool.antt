-- ===== src/Tests/Pool.antt =====
-- The pool's theorems on the small cluster.
use cloudtty.Base.{
  ◌≡◌, ◌↔◌, refl, ap, subst, ℕ, ◌+◌, ◌-◌, ◌*◌, ◌≤◌, ◌<◌, String, true, false, List, [], ◌∷◌, none,
  some, contains, string_eq, arith, take, length,
}
use cloudtty.Base.Result.{panic, failed, ok, err}
use cloudtty.Objects.{Pod}
use cloudtty.Queue
use cloudtty.Queue.{Queue, new_queue}
use cloudtty.Queue.Invariant.{Inv}
use cloudtty.Queue.Reference.{
  Call, adds, removes, asks, gets, lens, alls, run, list_run, run-list_run,
}
use cloudtty.Text.Decimal.{show_int}
use cloudtty.Cluster.{Env, RetryIsLawful}
use cloudtty.Cluster.Monad.{World, ◌>>=◌, pure, string_item, request_item, string_item-IsExact}
use cloudtty.Pods.{is_pod_ready}
use cloudtty.WorkerPool.Keys.{is_idle_worker, worker_owner_label_key, worker_key, split_worker_key}
use cloudtty.WorkerPool.Matching.{names_of, fits, match_worker_for, find_worker, find_request}
use cloudtty.WorkerPool.Lending.{answer, bind_body, bind_worker, lend, borrow, back, free_worker}
use cloudtty.WorkerPool.Lending.Binding.{label, HasCount}
use cloudtty.WorkerPool.Lending.Borrowing.{borrow-ok, lend_counts_twice}
use cloudtty.WorkerPool.Lending.Storing.{IsStored}
use cloudtty.WorkerPool.Lending.Failing.{CacheIsShared, borrow-failed, back-failed}
use cloudtty.WorkerPool.Lending.Returning.{back_within_limit}
use cloudtty.WorkerPool.Scaling.{shrink, scan_workers}
use cloudtty.WorkerPool.Scaling.Bounds.{shrink_keeps_core, delete_each}
use cloudtty.WorkerPool.Scaling.Panics.{scan_workers_panics, all_reported}
use cloudtty.Tests.Demo.{Demo, demo, demo-RetryIsLawful, ready_pod, request, pool, cluster}

abbrev calls : List (Call String)
calls = adds "a" ∷ adds "b" ∷ adds "a" ∷ lens ∷ removes "a" ∷ gets ∷ asks "b" ∷ alls ∷ []

run-list_run_example : run new_queue calls ≡ list_run [] calls
run-list_run_example = run-list_run string_item-IsExact calls

abbrev empty_world : World demo
empty_world = record {
  worker_queue = new_queue;
  request_queue = new_queue;
  events = [];
  state = cluster 0;
}

-- The worker's key waits.
abbrev pub waiting : ℕ → World demo
waiting n = record {
  worker_queue = record { queue = "default//img//w1" ∷ []; dirty = "default//img//w1" ∷ [] };
  request_queue = new_queue;
  events = [];
  state = cluster n;
}

pub waiting-Inv : Inv (waiting 0).worker_queue
waiting-Inv = record { distinct = (refl, tt); distinct_dirty = (refl, tt); agrees = λ a. refl }

abbrev pub bound : Pod
bound = bind_worker demo request ready_pod

abbrev pub lent : World demo
lent = record {
  worker_queue = new_queue;
  request_queue = new_queue;
  events = [];
  state = record (cluster 0) { pod = some bound };
}

pub borrowed : borrow demo request (waiting 0) ≡ (ok bound, lent)
unfolding borrow find_worker ◌>>=◌ answer match_worker_for Queue.all names_of split_worker_key lend
    bind_body new_queue Queue.remove worker_key bind_worker
borrowed = refl

borrow-ok_example :
    (key : String) × (contains (waiting 0).worker_queue.queue key ≡ true)
    × (fits (names_of key) request ≡ true)
    × (find_worker (Queue.all (waiting 0).worker_queue) request ≡ (names_of key).name)
    × (worker : Pod) × ((demo.lister_pod request.namespace (names_of key).name (waiting 0).state).0
        ≡ ok worker)
    × IsStored demo request worker bound lent.state
    × (contains lent.worker_queue.queue (worker_key bound) ≡ false)
    × (lent.worker_queue ≡ Queue.remove (waiting 0).worker_queue (worker_key bound))
    × (lent.request_queue ≡ (waiting 0).request_queue)
    × (lent.events ≡ (waiting 0).events)
borrow-ok_example =
    borrow-ok demo demo-RetryIsLawful request bound (waiting 0) lent waiting-Inv borrowed

-- The first update conflicts.
lend_counts_twice_example :
    HasCount 6 (bind_worker demo request (bind_worker demo request ready_pod))
    × (lend demo request ready_pod (waiting 1) ≡ (
      ok (bind_worker demo request bound),
      record (waiting 1) {
        worker_queue =
            Queue.remove (waiting 1).worker_queue (worker_key (bind_worker demo request bound));
        state = record (cluster 0) { pod = some (bind_worker demo request bound) };
      },
    ))
unfolding show_int
lend_counts_twice_example =
    lend_counts_twice demo demo-RetryIsLawful 4 request ready_pod (bind_worker demo request bound)
      (waiting 1) (record (cluster 0) { pod = some bound })
      (record (cluster 0) { pod = some (bind_worker demo request bound) }) (omega arith) refl refl
      refl

back_within_limit_example :
    (Queue.len (back demo pool ready_pod (waiting 0)).1.worker_queue ≤ 4)
    × ((back demo pool ready_pod (waiting 0)).1.request_queue.queue ≡ [])
    × ((back demo pool ready_pod (waiting 0)).1.events ≡ [])
unfolding new_queue Queue.len
back_within_limit_example =
    back_within_limit demo demo-RetryIsLawful pool ready_pod (waiting 0) refl (omega arith)

scan_workers_panics_example :
    ((scan_workers demo (record ready_pod { conditions = [] } ∷ []) empty_world).0 ≡ err panic)
    ↔ (all_reported (record ready_pod { conditions = [] } ∷ []) ≡ false)
scan_workers_panics_example =
    scan_workers_panics demo (record ready_pod { conditions = [] } ∷ []) empty_world ((λ h. cc), tt)

abbrev two_idle : List Pod
two_idle = ready_pod ∷ record ready_pod { name = "w2" } ∷ []

shrink_keeps_core_example :
    (length two_idle ≤ 1 → shrink demo pool two_idle ≡ pure tt)
    × (1 < length two_idle
        → (n : ℕ) × (shrink demo pool two_idle ≡ delete_each demo (take n two_idle))
          × (0 < n)
          × (n + 1 ≤ length two_idle)
          × ((length two_idle - 1) * 3 < n * 4 + 2)
          × (n * 4 ≤ (length two_idle - 1) * 3 + 2))
shrink_keeps_core_example = shrink_keeps_core demo pool two_idle refl

-- A cluster whose API server refuses every update of a pod.
abbrev refusing : Env
refusing = record demo { pods = record demo.pods { update = λ pod s. (err (failed "refused"), s) } }

refusing-RetryIsLawful : RetryIsLawful refusing
refusing-RetryIsLawful = record {
  retry-last = demo-RetryIsLawful.retry-last;
  retry-done = demo-RetryIsLawful.retry-done;
  retry-again = demo-RetryIsLawful.retry-again;
}

refusing-CacheIsShared : CacheIsShared refusing
refusing-CacheIsShared = record {
  reads-write = λ pod s. refl;
  reads-failed = λ pod sent e s s' h same.
      subst (λ (t : Demo). (refusing.lister_pod pod.namespace pod.name t).0 ≡ ok pod)
        (ap (λ out. out.1) same) h;
}

abbrev marked : Demo
marked = record (cluster 0) { pod = some (bind_worker refusing request ready_pod) }

abbrev unlucky : World refusing
unlucky = record {
  worker_queue = record { queue = "default//img//w1" ∷ []; dirty = "default//img//w1" ∷ [] };
  request_queue = record { queue = []; dirty = [] };
  events = [];
  state = cluster 0;
}

borrow-failed_example :
    (borrow refusing request unlucky ≡ (err (failed "refused"), record unlucky { state = marked }))
    × ((refusing.lister_pod "default" "w1" marked).0 ≡ ok (bind_worker refusing request ready_pod))
    × (label worker_owner_label_key (bind_worker refusing request ready_pod).labels ≡ some "shell")
    × (is_idle_worker (bind_worker refusing request ready_pod) ≡ false)
unfolding find_worker Queue.all names_of split_worker_key
borrow-failed_example =
    borrow-failed refusing refusing-RetryIsLawful refusing-CacheIsShared request ready_pod
      (failed "refused") unlucky (cluster 0) marked refl refl (λ h. cc) refl tt refl

abbrev given_back : Demo
given_back = record (cluster 0) { pod = some (free_worker refusing ready_pod) }

back-failed_example :
    (back refusing pool ready_pod unlucky
      ≡ (err (failed "refused"), record unlucky { state = given_back }))
    × ((refusing.lister_pod "default" "w1" given_back).0 ≡ ok (free_worker refusing ready_pod))
    × (is_idle_worker (free_worker refusing ready_pod) ≡ true)
unfolding find_request is_pod_ready Queue.len
back-failed_example =
    back-failed refusing refusing-RetryIsLawful refusing-CacheIsShared pool ready_pod ready_pod none
      (failed "refused") unlucky (cluster 0) given_back refl refl refl (λ _. omega arith) (λ h. cc)
      refl
