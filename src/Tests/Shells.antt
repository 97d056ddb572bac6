-- ===== src/Tests/Shells.antt =====
-- The controller's theorems, and those on the pool's loops, on the small cluster.
use cloudtty.Base.{◌≡◌, refl, ℕ, true, false, [], ◌∷◌, Option, none, some}
use cloudtty.Base.Result.{not_found, ok, err}
use cloudtty.Objects.{Pod, CloudShell, CloudShellSpec}
use cloudtty.Text.{ends_in_slash}
use cloudtty.Queue
use cloudtty.Queue.{Queue, new_queue}
use cloudtty.Cluster.Monad.{
  Request, World, ◌>>=◌, pure, queue_call, done, string_item, request_item,
}
use cloudtty.Pods.{is_pod_ready}
use cloudtty.WorkerPool.Keys.{web_tty_image}
use cloudtty.WorkerPool.Matching.{find_worker}
use cloudtty.WorkerPool.Serving.{reconcile, handle_request_queue, process_next_cluster}
use cloudtty.WorkerPool.Serving.Reconciling.{reconcile_swallows, without_key}
use cloudtty.WorkerPool.Serving.Taking.{taken}
use cloudtty.WorkerPool.Serving.Answering.{IsNews, told, waiting_request_served}
use cloudtty.WorkerPool.Lending.{borrow, lend}
use cloudtty.Controller.Routes.{create_ingress_for_cloudshell, put_ingress, route_ingress}
use cloudtty.Controller.Startup.{
  startup_worker_for, kubeconfig_of, read_secret, startup_worker, exec_command, client_options,
}
use cloudtty.Controller.Labels.{pod_label}
use cloudtty.Controller.Sync.{
  Controller, requeue_of, next_requeue_time_duration, schedule_time, sync_listed, bound_pod,
  update_cloudshell_status, sync_handler, sync_cloud_shell, get_binding_worker_for, serve,
  drop_unready, reassign, ensure_worker, start, status_body, store_status,
}
use cloudtty.Controller.Events.{process_next_item}
use cloudtty.Controller.Sync.Status.{update_cloudshell_status_gone}
use cloudtty.Controller.Events.Outcomes.{process_next_item_settles}
use cloudtty.Controller.Sync.Waiting.{sync_cloud_shell-waits, waits, request_of}
use cloudtty.Controller.Sync.Success.{Outcome, sync_cloud_shell-succeeds}
use cloudtty.Controller.Services.{create_route_rule, ingress_rule}
use cloudtty.Controller.Paths.{set_route_rule_path}
use cloudtty.Tests.Demo.{demo, demo-RetryIsLawful, demo-FinalizersAreLawful, ready_pod, pool}

abbrev spec : CloudShellSpec
spec = record {
  secret_ref = none;
  image = "img";
  once = false;
  command_action = "bash";
  ttl_seconds_after_started = none;
  cleanup = false;
  expose_mode = "NodePort";
  ingress_config = none;
  virtual_service_config = none;
  path_prefix = "";
  path_suffix = "";
  url_arg = false;
  env = [];
  ttyd_client_options = none;
}

abbrev pub shell : CloudShell
shell = record {
  name = "shell";
  namespace = "default";
  labels = none;
  finalizers = [];
  deletion_timestamp = none;
  spec = spec;
  status = record { phase = ""; access_url = ""; last_schedule_time = none };
}

-- So many updates will conflict; the listers give these.
abbrev pub world : ℕ → Option Pod → Option CloudShell → World demo
world n pod found = record {
  worker_queue = new_queue;
  request_queue = new_queue;
  events = [];
  state = record { time = 100; conflicts = n; pod = pod; shell = found };
}

update_cloudshell_status_gone_example :
    update_cloudshell_status demo shell "Ready" (world 1 none none)
    ≡ (err not_found, world 0 none none)
update_cloudshell_status_gone_example =
    update_cloudshell_status_gone demo demo-RetryIsLawful shell "Ready" (world 1 none none)
      (world 0 none none).state (world 0 none none).state refl refl

abbrev pub controller : Controller
controller = record {
  pool = record { core_worker_limit = 1; max_worker_limit = 4; queue = 1 };
  queue = 0;
  ttyd_service_buffer_size = "";
  ttyd_ping_interval = "";
  cloudshell_image = "img";
  node_selector = [];
  resources = none;
}

-- The shell is gone.
gone : sync_handler demo controller "shell" (world 0 none none) ≡ (ok none, world 0 none none)
unfolding sync_handler ◌>>=◌ sync_listed
gone = refl

process_next_item_settles_example :
    process_next_item demo controller "shell" (world 0 none none)
    ≡ (ok true, record (world 0 none none) { events = queue_call 0 (done "shell") ∷ [] })
process_next_item_settles_example =
    process_next_item_settles demo controller "shell" (ok none) (world 0 none none)
      (world 0 none none) gone (λ h. cc)

sync_cloud_shell-waits_example :
    sync_cloud_shell demo controller shell (world 0 none none)
    ≡ (ok none, waits demo controller (world 0 none none) (request_of demo controller shell "{}"))
unfolding pod_label Queue.all Queue.copy find_worker new_queue
sync_cloud_shell-waits_example =
    sync_cloud_shell-waits demo controller shell "{}" (world 0 none none) refl refl refl refl

abbrev live : Pod
live = ready_pod

abbrev dying : Pod
dying = record ready_pod {
  deletion_timestamp = some 9;
  finalizers = "cloudshell.cloudtty.io/worker-pool" ∷ [];
}

reconcile_swallows_example : reconcile demo dying (world 0 none none) ≡ (
  ok tt,
  record (without_key demo (world 0 none none) dying) { state = (world 0 none none).state },
)
reconcile_swallows_example =
    reconcile_swallows demo demo-RetryIsLawful demo-FinalizersAreLawful dying 9 not_found
      (world 0 none none) (world 0 none none).state refl refl

abbrev request : Request
request = request_of demo controller shell "{}"

-- The request waits, and the pod has just become ready.
abbrev asked : World demo
asked = record (world 0 (some ready_pod) (some shell)) {
  request_queue = record { queue = request ∷ []; dirty = request ∷ [] };
}

news : IsNews demo pool "w1" ready_pod request asked
unfolding is_pod_ready web_tty_image Queue.all new_queue
news = record {
  split = refl;
  live = refl;
  ready = refl;
  clean = record { namespace = refl; image = refl; image_set = refl; name = refl };
  has_name = refl;
  same_namespace = refl;
  same_image = refl;
  nobody_else = refl;
  unknown = refl;
}

waiting_request_served_example :
    (handle_request_queue demo (process_next_cluster demo pool "w1" asked).1 ≡ (
      ok tt,
      told demo pool request shell (taken demo pool "w1" ready_pod asked asked.state) asked.state,
    ))
    × (borrow demo request (
          told demo pool request shell
            (taken demo pool "w1" ready_pod asked asked.state)
            asked.state)
        ≡ lend demo request ready_pod (
            told demo pool request shell
              (taken demo pool "w1" ready_pod asked asked.state)
              asked.state))
waiting_request_served_example =
    waiting_request_served demo pool "w1" ready_pod request asked news shell asked.state asked.state
      asked.state asked.state refl refl refl refl refl

abbrev bound_shell : CloudShell
bound_shell = record shell { labels = some (("cloudshell.cloudtty.io/pod-name", "w1") ∷ []) }

-- Bound to the ready pod, with an ingress and a secret.
abbrev exposed : CloudShell
exposed = record bound_shell {
  spec = record spec { expose_mode = "Ingress"; secret_ref = some "secret" };
}

abbrev running : World demo
running = world 0 (some ready_pod) (some exposed)

no_requeue : next_requeue_time_duration demo exposed running ≡ (ok none, running)
unfolding next_requeue_time_duration requeue_of pure
no_requeue = refl

found : get_binding_worker_for demo exposed running ≡ (ok (some ready_pod), running)
unfolding get_binding_worker_for pod_label ◌>>=◌ bound_pod
found = refl

routed :
    create_route_rule demo exposed ready_pod running
    ≡ (ok "/apis/v1alpha1/cloudshell/shell", running)
unfolding create_route_rule ingress_rule ◌>>=◌ create_ingress_for_cloudshell put_ingress
    route_ingress set_route_rule_path ends_in_slash
routed = refl

started : startup_worker_for demo "" "" exposed running ≡ (ok exposed, running)
unfolding startup_worker_for ◌>>=◌ kubeconfig_of read_secret startup_worker client_options
    exec_command
started = refl

scheduled : schedule_time demo controller none running ≡ (ok (some 100), running)
unfolding schedule_time ◌>>=◌
scheduled = refl

abbrev served : CloudShell
served = record exposed {
  status = record {
    phase = "Ready";
    access_url = "/apis/v1alpha1/cloudshell/shell";
    last_schedule_time = some 100;
  };
}

abbrev serving : World demo
serving = record running { state = record (running.state) { shell = some served } }

serves : sync_cloud_shell demo controller exposed running ≡ (ok none, serving)
unfolding sync_cloud_shell serve drop_unready reassign ensure_worker start update_cloudshell_status
    status_body store_status is_pod_ready ◌>>=◌
serves = rw (no_requeue, found, routed, started, scheduled) refl

sync_cloud_shell-succeeds_example : Outcome demo controller exposed running serving none
sync_cloud_shell-succeeds_example =
    sync_cloud_shell-succeeds demo controller demo-RetryIsLawful exposed none running serving serves
