-- ===== src/Tests/Removals.antt =====
-- The end of a shell whose own update is refused, and the replacement of a worker that cannot be deleted.
use cloudtty.Base.{◌≡◌, refl, true, false, [], ◌∷◌, none, some, arith, ◌++◌, string_eq, contains}
use cloudtty.Base.Result.{conflict, failed, ok, err}
use cloudtty.Objects.{Pod, CloudShell}
use cloudtty.Queue
use cloudtty.Queue.{new_queue}
use cloudtty.Queue.Invariant.{Inv}
use cloudtty.Cluster.Monad.{Request, World, ◌>>=◌, save_shell, string_item, request_item}
use cloudtty.Pods.{is_pod_ready}
use cloudtty.WorkerPool.Keys.{is_idle_worker, worker_key, split_worker_key}
use cloudtty.WorkerPool.Matching.{
  find_request, match_request_for, match_worker_for, find_worker, names_of,
}
use cloudtty.WorkerPool.Lending.{
  bind_worker, free_worker, borrow, answer, lend, bind_body, back, back_body, back_listed,
  back_found, back_ready, keep_worker, signal_if,
}
use cloudtty.WorkerPool.Lending.Returning.{signals}
use cloudtty.Controller.Labels.{pod_label, remove_pod_label}
use cloudtty.Controller.Routes.{remove_cloudshell_route}
use cloudtty.Controller.Startup.{reset_worker, exec_command}
use cloudtty.Controller.Sync.{
  get_binding_worker_for, bound_pod, sync_cloud_shell, remove_cloudshell, remove_finalizer,
  remove_finalizer_if,
}
use cloudtty.Controller.Sync.Removing.{leave, written, remove_cloudshell-retried}
use cloudtty.Controller.Sync.Waiting.{waits, request_of}
use cloudtty.Controller.Sync.Replacing.{sync_cloud_shell-replaces}
use cloudtty.Cluster.{Env, RetryIsLawful}
use cloudtty.Tests.Demo.{ready_pod, unready_pod, request, demo, demo-RetryIsLawful}
use cloudtty.Tests.Losses.{refusing, refusing-RetryIsLawful}
use cloudtty.Tests.Shells.{shell, controller}

-- A shell that has the worker w1, and another one that asks for a worker.
abbrev ending : CloudShell
ending = record shell {
  labels = some (("cloudshell.cloudtty.io/pod-name", "w1") ∷ []);
  finalizers = "cloudtty.io/cloudshell-controller" ∷ [];
}

abbrev other : Request
other = record request { cloudshell = "other" }

abbrev own : Pod
own = bind_worker refusing request ready_pod

abbrev freed : Pod
freed = free_worker refusing own

abbrev taken : Pod
taken = bind_worker refusing other freed

abbrev before : World refusing
before = record {
  worker_queue = new_queue;
  request_queue = new_queue;
  events = [];
  state = record { time = 100; conflicts = 0; pod = some own; shell = some ending };
}

abbrev given : World refusing
given = record before {
  worker_queue = Queue.add new_queue (worker_key own);
  state = record (before.state) { pod = some freed };
}

abbrev refused : World refusing
refused = record given {
  state = record (given.state) {
    shell = some (record (remove_pod_label ending) { finalizers = [] });
  };
}

-- The other shell has the worker, and the cache holds the ending one as the server does.
abbrev lent : World refusing
lent = record before { state = record (before.state) { pod = some taken } }

lends : borrow refusing other (record refused { state = given.state }) ≡ (ok taken, lent)
unfolding borrow find_worker ◌>>=◌ answer match_worker_for Queue.all names_of split_worker_key lend
    bind_body new_queue Queue.add Queue.remove worker_key bind_worker free_worker
lends = refl

refused-Inv : Inv refused.worker_queue
unfolding new_queue Queue.add worker_key free_worker bind_worker
refused-Inv = record { distinct = (refl, tt); distinct_dirty = (refl, tt); agrees = λ a. refl }

remove_cloudshell-retried_example :
    (remove_cloudshell refusing controller ending before ≡ (err conflict, refused))
    × (is_idle_worker taken ≡ false)
    × (contains lent.worker_queue.queue (worker_key taken) ≡ false)
    × (is_idle_worker (free_worker refusing taken) ≡ true)
    × (contains (Queue.add lent.worker_queue (worker_key taken)).queue (worker_key taken) ≡ true)
    × (remove_cloudshell refusing controller ending lent
        ≡ leave refusing controller (remove_pod_label ending) (
            written refusing controller (remove_pod_label ending) (record lent {
              worker_queue = Queue.add lent.worker_queue (worker_key taken);
              events = signals refusing none ++ lent.events;
              state = record (lent.state) { pod = some (free_worker refusing taken) };
            })))
unfolding remove_cloudshell_route remove_finalizer remove_finalizer_if get_binding_worker_for
    bound_pod back back_body back_listed back_found back_ready keep_worker signal_if
    match_request_for find_request free_worker bind_worker is_pod_ready new_queue Queue.add
    reset_worker exec_command worker_key pod_label remove_pod_label ◌>>=◌ Queue.all Queue.len
    save_shell
remove_cloudshell-retried_example =
    remove_cloudshell-retried refusing controller refusing-RetryIsLawful ending own taken
      (free_worker refusing taken) other none conflict before given refused lent before.state
      given.state lent.state lent.state
      (record (lent.state) { pod = some (free_worker refusing taken) }) refl refl refl refl
      refused-Inv lends refl refl refl refl refl refl refl refl (λ e. omega arith) refl

-- No pod can be deleted.
abbrev stuck : Env
stuck = record demo {
  pods = record (demo.pods) { delete = λ pod s. (err (failed "no deletion"), s) };
}

stuck-RetryIsLawful : RetryIsLawful stuck
stuck-RetryIsLawful = record {
  retry-last = demo-RetryIsLawful.retry-last;
  retry-done = demo-RetryIsLawful.retry-done;
  retry-again = demo-RetryIsLawful.retry-again;
}

abbrev served : World stuck
served = record {
  worker_queue = new_queue;
  request_queue = new_queue;
  events = [];
  state = record { time = 100; conflicts = 0; pod = some unready_pod; shell = some ending };
}

sync_cloud_shell-replaces_example : sync_cloud_shell stuck controller ending served ≡ (
  ok none,
  waits stuck controller
      (record served { state = record (served.state) { shell = some (remove_pod_label ending) } })
      (request_of stuck controller (remove_pod_label ending) "{}"),
)
unfolding is_pod_ready get_binding_worker_for bound_pod pod_label remove_pod_label Queue.all
    new_queue find_worker ◌>>=◌
sync_cloud_shell-replaces_example =
    sync_cloud_shell-replaces stuck controller stuck-RetryIsLawful ending (remove_pod_label ending)
      unready_pod unready_pod "{}" (err (failed "no deletion")) served served served.state
      served.state (record (served.state) { shell = some (remove_pod_label ending) }) refl refl refl
      refl refl refl (λ e. cc) (λ e. cc) refl refl refl
