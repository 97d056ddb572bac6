-- ===== src/Controller/Sync/Keeping.antt =====
-- The controller keeps the invariant of the pool's two queues.
use cloudtty.Base.{String, Bool, true, false, List, [], ◌∷◌, Option, none, some, ℕ}
use cloudtty.Base.Int.{ℤ}
use cloudtty.Base.Result.{panic, not_found, conflict, no_worker, failed, wrapped, Result, ok, err}
use cloudtty.Objects.{Pod, CloudShell, CloudShellStatus, Node, Service}
use cloudtty.Cluster.{Env, RetryIsLawful, default_backoff}
use cloudtty.Cluster.Monad.{World, ◌>>=◌, string_item, request_item}
use cloudtty.Cluster.Monad.Keeps.{Keeps}
use cloudtty.WorkerPool.Creation.{create_or_update_service}
use cloudtty.WorkerPool.Invariant.Rules.{
  QueuesInv, QueuesInv-IsLocal, QueuesInv-IsKept, queue_rules,
}
use cloudtty.WorkerPool.Invariant.Lending.{borrow-Keeps, back-Keeps, write_service-Keeps}
use cloudtty.Controller.Defaults.{ensure_cloud_shell}
use cloudtty.Controller.Routes.{create_virtual_service_for_cloudshell}
use cloudtty.Controller.Nodes.{or_control_plane, get_master_node_ip}
use cloudtty.Controller.Services.{
  create_cloud_shell_service, node_port_rule, ingress_rule, virtual_service_rule, create_route_rule,
}
use cloudtty.Controller.Startup.{
  exec_command, reset_worker, startup_worker, make_secret, read_secret, kubeconfig_of,
  startup_worker_for,
}
use cloudtty.Controller.Sync.{
  unless_panic, Controller, requeue_of, next_requeue_time_duration, bound_pod,
  get_binding_worker_for, StatusTry, store_status, store_read, status_body,
  update_cloudshell_status, remove_finalizer_if, remove_finalizer, give_back, remove_cloudshell,
  complete, expire, reassign, drop_unready, bind, ensure_worker, schedule_time, start, serve,
  sync_cloud_shell, sync_live, sync_listed, sync_handler,
}
use cloudtty.Controller.Events.{settle_item, process_next_item}
use cloudtty.Controller.Routes.Keeping.{
  create_ingress-Keeps, virtual_service_with-Keeps, remove_route-Keeps,
}

module _ (E : Env) where
  or_control_plane-Keeps : (nodes : List Node) → Keeps QueuesInv (or_control_plane E nodes)
  unfolding or_control_plane
  or_control_plane-Keeps [] = search queue_rules
  or_control_plane-Keeps (_ ∷ _) = search queue_rules

  master_node-Keeps : Keeps QueuesInv (get_master_node_ip E)
  unfolding get_master_node_ip
  master_node-Keeps = search (queue_rules, or_control_plane-Keeps)

  kubeconfig_of-Keeps :
      (shell : CloudShell) (name : Option String) → Keeps QueuesInv (kubeconfig_of E shell name)
  unfolding kubeconfig_of make_secret read_secret
  kubeconfig_of-Keeps shell none = search queue_rules depth 9
  kubeconfig_of-Keeps shell (some name) = search queue_rules

  startup-Keeps :
      (buffer_size ping_interval : String) (shell : CloudShell)
      → Keeps QueuesInv (startup_worker_for E buffer_size ping_interval shell)
  unfolding startup_worker_for startup_worker exec_command
  startup-Keeps buffer_size ping_interval shell = search (queue_rules, kubeconfig_of-Keeps) depth 9

  requeue_of-Keeps :
      (shell : CloudShell) (ttl : Option ℤ) → Keeps QueuesInv (requeue_of E shell ttl)
  unfolding requeue_of
  requeue_of-Keeps shell none = search queue_rules
  requeue_of-Keeps shell (some ttl) = search queue_rules

  bound_pod-Keeps : (r : Result Pod) → Keeps QueuesInv (bound_pod E r)
  unfolding bound_pod
  bound_pod-Keeps (err e) = search queue_rules
  bound_pod-Keeps (ok pod) = search queue_rules

  binding-Keeps : (shell : CloudShell) → Keeps QueuesInv (get_binding_worker_for E shell)
  unfolding get_binding_worker_for
  binding-Keeps shell = search (queue_rules, bound_pod-Keeps) depth 7

  store_read-QueuesInv :
      (status : CloudShellStatus) (r : Result CloudShell) (w : World E)
      → QueuesInv w
      → QueuesInv (store_read E status (r, w)).1.1
  unfolding store_read store_status
  store_read-QueuesInv status (err e) w h = h
  store_read-QueuesInv status (ok shell) w h = QueuesInv-IsLocal.with_state w _ h

  status_body-QueuesInv :
      (status : CloudShellStatus) (first : Bool) (shell : Option CloudShell) (w : World E)
      → QueuesInv w
      → QueuesInv (status_body E status ((first, shell), w)).1.1
  unfolding status_body store_status ◌>>=◌
  status_body-QueuesInv status first none w h = h
  status_body-QueuesInv status true (some shell) w h = QueuesInv-IsLocal.with_state w _ h
  status_body-QueuesInv status false (some shell) w h =
      store_read-QueuesInv status _ _ (QueuesInv-IsLocal.with_state w _ h)

  finalizer_if-Keeps :
      (shell : CloudShell) (r : List String × Bool)
      → Keeps QueuesInv (remove_finalizer_if E shell r)
  unfolding remove_finalizer_if
  finalizer_if-Keeps shell (_, true) = search queue_rules
  finalizer_if-Keeps shell (_, false) = search queue_rules

  schedule_time-Keeps : (t : Option ℕ) (c : Controller) → Keeps QueuesInv (schedule_time E c t)
  unfolding schedule_time
  schedule_time-Keeps none c = search queue_rules
  schedule_time-Keeps (some t) c = search queue_rules

  settle_item-Keeps :
      (c : Controller) (key : String) (r : Result (Option ℤ))
      → Keeps QueuesInv (settle_item E c key r)
  unfolding settle_item
  settle_item-Keeps c key (err panic) = search queue_rules
  settle_item-Keeps c key (err not_found) = search queue_rules
  settle_item-Keeps c key (err conflict) = search queue_rules
  settle_item-Keeps c key (err no_worker) = search queue_rules
  settle_item-Keeps c key (err (failed _)) = search queue_rules
  settle_item-Keeps c key (err (wrapped _ _)) = search queue_rules
  settle_item-Keeps c key (ok none) = search queue_rules
  settle_item-Keeps c key (ok (some t)) = search queue_rules

module _ (E : Env) (L : RetryIsLawful E) where
  create_or_update-Keeps :
      (service : Service) → Keeps QueuesInv (create_or_update_service E service)
  unfolding create_or_update_service
  create_or_update-Keeps service = search (queue_rules, write_service-Keeps E L QueuesInv-IsKept)

  service-Keeps :
      (shell : CloudShell) (worker : Pod)
      → Keeps QueuesInv (create_cloud_shell_service E shell worker)
  unfolding create_cloud_shell_service
  service-Keeps shell worker = search (queue_rules, create_or_update-Keeps) depth 9

  create_route_rule-Keeps :
      (shell : CloudShell) (worker : Pod) → Keeps QueuesInv (create_route_rule E shell worker)
  unfolding create_route_rule node_port_rule ingress_rule virtual_service_rule
      create_virtual_service_for_cloudshell
  create_route_rule-Keeps shell worker =
      search
        (
          queue_rules, master_node-Keeps, service-Keeps, create_ingress-Keeps,
          virtual_service_with-Keeps,
        )
        depth 10

  status-Keeps :
      (shell : CloudShell) (phase : String)
      → Keeps QueuesInv (update_cloudshell_status E shell phase)
  unfolding update_cloudshell_status
  status-Keeps shell phase = record {
    at = λ w h.
        L.retry-last default_backoff (StatusTry E) (status_body E _) (λ t. QueuesInv t.1)
          (λ u. QueuesInv u.1.1)
          (λ ((first, s), v) q.
            (status_body-QueuesInv E _ first s v q, λ e. status_body-QueuesInv E _ first s v q))
          _ h;
  }

  module _ (c : Controller) where
    give_back-Keeps :
        (shell : CloudShell) (worker : Option Pod) → Keeps QueuesInv (give_back E c shell worker)
    unfolding give_back reset_worker exec_command
    give_back-Keeps shell none = search queue_rules
    give_back-Keeps shell (some worker) = search (queue_rules, back-Keeps E L QueuesInv-IsKept)

    remove-Keeps : (shell : CloudShell) → Keeps QueuesInv (remove_cloudshell E c shell)
    unfolding remove_cloudshell remove_finalizer
    remove-Keeps shell =
        search (queue_rules, binding-Keeps, give_back-Keeps, remove_route-Keeps, finalizer_if-Keeps)
          depth 8

    expire-Keeps : (shell : CloudShell) → Keeps QueuesInv (expire E c shell)
    unfolding expire complete
    expire-Keeps shell = search (queue_rules, remove-Keeps, status-Keeps) depth 8

    unless_panic-Keeps : (r : Result (Unit {0})) → Keeps QueuesInv (unless_panic E c r)
    unfolding unless_panic
    unless_panic-Keeps (ok _) = search queue_rules
    unless_panic-Keeps (err panic) = search queue_rules
    unless_panic-Keeps (err _) = search queue_rules

    reassign-Keeps :
        (ready : Bool) (shell : CloudShell) (worker : Pod)
        → Keeps QueuesInv (reassign E c ready shell worker)
    unfolding reassign
    reassign-Keeps true shell worker = search queue_rules
    reassign-Keeps false shell worker =
        search (queue_rules, back-Keeps E L QueuesInv-IsKept, unless_panic-Keeps) depth 8

    drop_unready-Keeps :
        (shell : CloudShell) (worker : Option Pod) → Keeps QueuesInv (drop_unready E c shell worker)
    unfolding drop_unready
    drop_unready-Keeps shell none = search queue_rules
    drop_unready-Keeps shell (some worker) = reassign-Keeps _ shell worker

    bind-Keeps : (shell : CloudShell) (r : Result Pod) → Keeps QueuesInv (bind E c shell r)
    unfolding bind
    bind-Keeps shell (ok worker) = search queue_rules
    bind-Keeps shell (err no_worker) = search queue_rules
    bind-Keeps shell (err _) = search queue_rules

    ensure_worker-Keeps :
        (shell : CloudShell) (worker : Option Pod)
        → Keeps QueuesInv (ensure_worker E c shell worker)
    unfolding ensure_worker
    ensure_worker-Keeps shell (some worker) = search queue_rules
    ensure_worker-Keeps shell none =
        search (queue_rules, borrow-Keeps E L QueuesInv-IsKept, bind-Keeps) depth 8

    start-Keeps :
        (t : Option ℤ) (bound : Option (CloudShell × Pod)) → Keeps QueuesInv (start E c t bound)
    unfolding start
    start-Keeps t none = search queue_rules
    start-Keeps t (some (shell, worker)) =
        search
          (queue_rules, create_route_rule-Keeps, startup-Keeps, schedule_time-Keeps, status-Keeps)
          depth 9

    serve-Keeps : (t : Option ℤ) (shell : CloudShell) → Keeps QueuesInv (serve E c t shell)
    unfolding serve
    serve-Keeps t shell =
        search (queue_rules, binding-Keeps, drop_unready-Keeps, ensure_worker-Keeps, start-Keeps)
          depth 10

    sync_cloud_shell-Keeps : (shell : CloudShell) → Keeps QueuesInv (sync_cloud_shell E c shell)
    unfolding sync_cloud_shell next_requeue_time_duration
    sync_cloud_shell-Keeps shell =
        search (queue_rules, requeue_of-Keeps, expire-Keeps, serve-Keeps) depth 8

    sync_live-Keeps :
        (deleted : Option ℕ) (shell : CloudShell) → Keeps QueuesInv (sync_live E c deleted shell)
    unfolding sync_live ensure_cloud_shell
    sync_live-Keeps (some _) shell = search (queue_rules, remove-Keeps)
    sync_live-Keeps none shell = search (queue_rules, sync_cloud_shell-Keeps) depth 8

    sync_listed-Keeps : (r : Result CloudShell) → Keeps QueuesInv (sync_listed E c r)
    unfolding sync_listed
    sync_listed-Keeps (err e) = search queue_rules
    sync_listed-Keeps (ok shell) = sync_live-Keeps _ shell

    -- Reconciling a shell.
    pub process_next_item-Keeps : (key : String) → Keeps QueuesInv (process_next_item E c key)
    unfolding process_next_item sync_handler
    process_next_item-Keeps key =
        search (queue_rules, sync_listed-Keeps, settle_item-Keeps) depth 10
