-- ===== src/Controller/Sync.antt =====
-- The reconcile loop of pkg/controllers/cloudshell_controller.go: `syncHandler`, `syncCloudShell`,
-- `removeCloudshell` and `UpdateCloudshellStatus`.
pub mod Ttl
pub mod Status
pub mod Keeping
pub mod Histories
pub mod Waiting
pub mod Replacing
pub mod Removing
pub mod Starting
pub mod Success
pub mod Binding
use cloudtty.Base.{
  ℕ, ◌^◌, String, ◌<>◌, Bool, true, false, not, ◌||◌, List, Option, none, some, if◌then◌else◌, ◌==◌,
  leb,
}
use cloudtty.Base.Dict.{Dict, lookup}
use cloudtty.Base.Int.{ℤ, pos, negsuc, ◌+ℤ◌, ◌-ℤ◌, ltb_ℤ, scale_int64}
use cloudtty.Base.Result.{no_worker, panic, Result, ok, err, is_not_found}
use cloudtty.Objects.{CloudShell, CloudShellStatus, Pod}
use cloudtty.Text.{is_empty}
use cloudtty.Text.Decimal.{show_int}
use cloudtty.Cluster.{Env, default_backoff}
use cloudtty.Cluster.Monad.{
  World, M, ◌>>=◌, ◌>>◌, pure, fail, attempt, call, query, write_shell, save_shell, emit,
  from_result, queue_call, add, add_after, add_rate_limited, forget, done,
}
use cloudtty.Pods.{is_pod_ready}
use cloudtty.WorkerPool.Keys.{worker_owner_label_key}
use cloudtty.WorkerPool.Creation.{wrap, map_to_json_string}
use cloudtty.WorkerPool.Lending.{Pool, borrow, back}
use cloudtty.WorkerPool.Scaling.{text_of}
use cloudtty.Controller.Labels.{
  cloudshell_pod_label_key, phase_ready, phase_completed, pod_label, remove_pod_label, add_label,
}
use cloudtty.Controller.Defaults.{cloudshell_controller_finalizer, ensure_cloud_shell}
use cloudtty.Controller.Routes.{remove_cloudshell_route}
use cloudtty.Controller.Services.{create_route_rule}
use cloudtty.Controller.Startup.{reset_worker, startup_worker_for}

-- The fields of `Controller` beside its clients. The resources and the queue are addresses.
pub record Controller : Type 0 where
  pub pool : Pool
  pub queue : ℕ
  pub ttyd_service_buffer_size : String
  pub ttyd_ping_interval : String
  pub cloudshell_image : String
  pub node_selector : Dict
  pub resources : Option ℕ

-- `time.Time.Sub` gives the nearest duration where the difference is none.
abbrev pub saturate_int64 : ℤ → ℤ
saturate_int64 (pos n) = if leb (2 ^ 63) n then pos 9223372036854775807 else pos n
saturate_int64 (negsuc n) = if leb (2 ^ 63) n then negsuc 9223372036854775807 else negsuc n

-- `time.Second * time.Duration(ttl)` wraps as an int64 does.
unfoldable pub time_left : ℕ → ℤ → ℕ → ℤ
time_left start ttl now = saturate_int64 ((pos start +ℤ scale_int64 1000000000 ttl) -ℤ pos now)

abbrev pub or_now : Option ℕ → ℕ → ℕ
or_now none now = now
or_now (some t) now = t

-- `t != nil && *t < 0`
abbrev pub is_over : Option ℤ → Bool
is_over none = false
is_over (some t) = ltb_ℤ t (pos 0)

abbrev pub with_ttl : String → Option ℤ → String
with_ttl url none = url
with_ttl url (some ttl) = url <> ("?ttl=" <> show_int ttl)

module _ (E : Env) where
  unfoldable pub requeue_of : CloudShell → Option ℤ → M E (Option ℤ)
  requeue_of shell none = pure none
  requeue_of shell (some ttl) = do
    start ← query E.now
    now ← query E.now
    pure (some (time_left (or_now shell.status.last_schedule_time start) ttl now))

  unfoldable pub next_requeue_time_duration : CloudShell → M E (Option ℤ)
  next_requeue_time_duration shell = requeue_of shell shell.spec.ttl_seconds_after_started

  unfoldable pub bound_pod : Result Pod → M E (Option Pod)
  bound_pod (err e) = if is_not_found e then pure none else fail e
  bound_pod (ok pod) = pure (some pod)

  unfoldable pub get_binding_worker_for : CloudShell → M E (Option Pod)
  get_binding_worker_for shell = if is_empty (pod_label shell) then pure none else (do
    found ← attempt (call (E.lister_pod shell.namespace (pod_label shell)))
    bound_pod found)

  -- The variables of `UpdateCloudshellStatus`: `firstTry`, and `cloudshell`, which is nil after a read
  -- that failed.
  abbrev pub StatusTry : Type 0
  StatusTry = (Bool × Option CloudShell) × World E

  unfoldable pub store_status :
      CloudShellStatus → CloudShell → World E → Result (Unit {0}) × StatusTry
  store_status status shell w =
      let written = record shell { status = status } in
      let (r, s) = E.update_status written (E.write_shell written w.state) in
      (r, ((false, some written), record w { state = s }))

  -- `IsNotFound(err)` tests the error of the update, which is nil here.
  unfoldable pub store_read :
      CloudShellStatus → Result CloudShell × World E → Result (Unit {0}) × StatusTry
  store_read status (err e, w) = (err e, ((false, none), w))
  store_read status (ok shell, w) = store_status status shell w

  unfoldable pub status_body : CloudShellStatus → StatusTry → Result (Unit {0}) × StatusTry
  status_body status ((first, none), w) = (err panic, ((first, none), w))
  status_body status ((true, some shell), w) = store_status status shell w
  status_body status ((false, some shell), w) =
      store_read status (call (E.lister_shell shell.namespace shell.name) w)

  unfoldable pub update_cloudshell_status : CloudShell → String → M E (Unit {0})
  update_cloudshell_status shell phase w =
      let status = record (shell.status) { phase = phase } in
      let (r, t) =
        E.retry default_backoff StatusTry (status_body status)
          ((true, some (record shell { status = status })), w) in
      (r, t.1)

  unfoldable pub remove_finalizer_if : CloudShell → List String × Bool → M E CloudShell
  remove_finalizer_if shell (finalizers, true) =
      save_shell (record shell { finalizers = finalizers })
  remove_finalizer_if shell (finalizers, false) = pure shell

  -- The shell comes back as it is after its update.
  unfoldable pub remove_finalizer : CloudShell → M E CloudShell
  remove_finalizer shell =
      remove_finalizer_if shell
        (E.remove_finalizer shell.finalizers cloudshell_controller_finalizer)

  module _ (c : Controller) where
    -- A reset that fails is only logged.
    unfoldable pub give_back : CloudShell → Option Pod → M E CloudShell
    give_back shell none = pure shell
    give_back shell (some worker) = do
      attempt (reset_worker E shell)
      back E c.pool worker
      write_shell (remove_pod_label shell)
      pure (remove_pod_label shell)

    unfoldable pub remove_cloudshell : CloudShell → M E CloudShell
    remove_cloudshell shell = do
      worker ← get_binding_worker_for shell
      unbound ← give_back shell worker
      remove_cloudshell_route E unbound
      remove_finalizer unbound

    unfoldable pub complete : CloudShell → M E (Unit {0})
    complete shell =
        if shell.spec.cleanup
        then call (E.shells.delete shell)
        else update_cloudshell_status shell phase_completed

    unfoldable pub expire : CloudShell → M E (Option ℤ)
    expire shell = do removed ← remove_cloudshell shell; complete removed; pure none

    -- An error is only logged; a panic goes on.
    unfoldable pub unless_panic : Result (Unit {0}) → M E (Unit {0})
    unless_panic (err panic) = fail panic
    unless_panic _ = pure tt

    -- A worker that is not ready is given back, whether that fails or not, and unbound.
    unfoldable pub reassign : Bool → CloudShell → Pod → M E (CloudShell × Option Pod)
    reassign true shell worker = pure (shell, some worker)
    reassign false shell worker = do
      outcome ← attempt (back E c.pool worker)
      unless_panic outcome
      updated ← save_shell (remove_pod_label shell)
      pure (updated, none)

    unfoldable pub drop_unready : CloudShell → Option Pod → M E (CloudShell × Option Pod)
    drop_unready shell none = pure (shell, none)
    drop_unready shell (some worker) = reassign (is_pod_ready worker) shell worker

    -- `none`: the shell waits for a worker.
    unfoldable pub bind : CloudShell → Result Pod → M E (Option (CloudShell × Pod))
    bind shell (ok worker) = do
      updated ← save_shell (add_label E shell cloudshell_pod_label_key worker.name)
      pure (some (updated, worker))
    bind shell (err no_worker) = pure none
    bind shell (err e) = fail e

    unfoldable pub ensure_worker : CloudShell → Option Pod → M E (Option (CloudShell × Pod))
    ensure_worker shell (some worker) = pure (some (shell, worker))
    ensure_worker shell none = do
      selector ← from_result (
          wrap "failed to marshal node selector for cloudshell"
            (map_to_json_string E c.node_selector))
      borrowed ← attempt (
          borrow E record {
            cloudshell = shell.name;
            namespace = shell.namespace;
            image = shell.spec.image;
            node_selector = selector;
            resources = c.resources;
            cloudshell_queue = c.queue;
          })
      bind shell borrowed

    unfoldable pub schedule_time : Option ℕ → M E (Option ℕ)
    schedule_time (some t) = pure (some t)
    schedule_time none = do now ← query E.now; pure (some now)

    unfoldable pub start : Option ℤ → Option (CloudShell × Pod) → M E (Option ℤ)
    start t none = pure none
    start t (some (shell, worker)) = do
      url ← create_route_rule E shell worker
      started ← startup_worker_for E c.ttyd_service_buffer_size c.ttyd_ping_interval shell
      scheduled ← schedule_time started.status.last_schedule_time
      let status = record (started.status) {
        access_url = with_ttl url started.spec.ttl_seconds_after_started;
        last_schedule_time = scheduled;
      }
      update_cloudshell_status (record started { status = status }) phase_ready
      pure t

    unfoldable pub serve : Option ℤ → CloudShell → M E (Option ℤ)
    serve t shell = do
      found ← attempt (get_binding_worker_for shell)
      worker ← from_result (wrap "failed to get binding worker for cloudshell" found)
      (current, kept) ← drop_unready shell worker
      bound ← ensure_worker current kept
      start t bound

    unfoldable pub sync_cloud_shell : CloudShell → M E (Option ℤ)
    sync_cloud_shell shell = do
      t ← next_requeue_time_duration shell
      if is_over t then expire shell else serve t shell

    unfoldable pub sync_live : Option ℕ → CloudShell → M E (Option ℤ)
    sync_live (some _) shell = do remove_cloudshell shell; pure none
    sync_live none shell = do
      ensured ← ensure_cloud_shell E c.cloudshell_image shell
      sync_cloud_shell ensured

    unfoldable pub sync_listed : Result CloudShell → M E (Option ℤ)
    sync_listed (err e) = if is_not_found e then pure none else fail e
    sync_listed (ok shell) = sync_live shell.deletion_timestamp shell

    unfoldable pub sync_handler : String → M E (Option ℤ)
    sync_handler key = do
      (namespace, name) ← from_result (E.split_meta_namespace_key key)
      found ← attempt (call (E.lister_shell namespace name))
      sync_listed found
