-- ===== src/Controller/Sync/Replacing.antt =====
-- A shell whose worker is no longer ready gets another one (`syncCloudShell` of
-- pkg/controllers/cloudshell_controller.go).
use cloudtty.Base.{String, true, false, none, some, ◌≡◌, ◌≢◌, refl}
use cloudtty.Base.Result.{panic, conflict, Result, ok, err}
use cloudtty.Objects.{CloudShell, Pod}
use cloudtty.Text.{is_empty}
use cloudtty.Queue
use cloudtty.Cluster.{Env, RetryIsLawful}
use cloudtty.Cluster.Monad.{World, ◌>>=◌, save_shell, string_item, request_item}
use cloudtty.Pods.{is_pod_ready}
use cloudtty.WorkerPool.Creation.{map_to_json_string, delete_worker}
use cloudtty.WorkerPool.Matching.{find_worker}
use cloudtty.WorkerPool.Lending.{Pool, back, back_body, back_listed, back_found}
use cloudtty.WorkerPool.Lending.Borrowing.{borrow-no_worker}
use cloudtty.WorkerPool.Lending.Returning.{back_once}
use cloudtty.Controller.Labels.{remove_pod_label}
use cloudtty.Controller.Sync.{
  Controller, get_binding_worker_for, drop_unready, reassign, unless_panic, bind, ensure_worker,
  start, serve, sync_cloud_shell,
}
use cloudtty.Controller.Sync.Waiting.{no_requeue, request_of, waits}

module _ (E : Env) (c : Controller) where
  -- A listed pod that is not ready is deleted, and nothing else is done with it.
  back-deletes :
      RetryIsLawful E
      → (pool : Pool) (worker newer : Pod) (r : Result (Unit {0})) (w : World E) (s s' : E.State)
      → E.lister_pod worker.namespace worker.name w.state ≡ (ok newer, s)
      → is_pod_ready newer ≡ false
      → E.pods.delete newer s ≡ (r, s')
      → r ≢ err conflict
      → back E pool worker w ≡ (r, record w { state = s' })
  unfolding back_body back_listed back_found delete_worker ◌>>=◌
  back-deletes L pool worker newer r w s s' listed unready deleted clear =
      back_once E L pool worker w _ r (rw (listed, unready, deleted) refl) clear

  saved :
      (shell updated : CloudShell) (u : World E) (s : E.State)
      → E.shells.update shell (E.write_shell shell u.state) ≡ (ok updated, s)
      → save_shell shell u ≡ (ok updated, record u { state = E.write_shell updated s })
  unfolding save_shell ◌>>=◌
  saved shell updated u s h = rw h refl

  unless_panic-ok :
      (r : Result (Unit {0})) (w : World E) → r ≢ err panic → unless_panic E c r w ≡ (ok tt, w)
  unfolding unless_panic ◌>>=◌
  unless_panic-ok (ok _) w h = refl
  unless_panic-ok (err panic) w h = absurd (h refl)
  unless_panic-ok (err _) w h = refl

  drop_unready-drops :
      (shell updated : CloudShell) (worker : Pod) (r : Result (Unit {0})) (v u : World E)
      (s : E.State)
      → is_pod_ready worker ≡ false
      → back E c.pool worker v ≡ (r, u)
      → r ≢ err panic
      → E.shells.update (remove_pod_label shell) (E.write_shell (remove_pod_label shell) u.state)
        ≡ (ok updated, s)
      → drop_unready E c shell (some worker) v
        ≡ (ok (updated, none), record u { state = E.write_shell updated s })
  unfolding drop_unready reassign ◌>>=◌
  drop_unready-drops shell updated worker r v u s unready given calm stored =
      rw
        (
          unready,
          given,
          unless_panic-ok r u calm,
          saved (remove_pod_label shell) updated u s stored,
        )
        refl

  serve-replaces :
      (shell updated : CloudShell) (worker : Pod) (selector : String) (r : Result (Unit {0}))
      (w v u : World E) (s : E.State)
      → get_binding_worker_for E shell w ≡ (ok (some worker), v)
      → is_pod_ready worker ≡ false
      → back E c.pool worker v ≡ (r, u)
      → r ≢ err panic
      → E.shells.update (remove_pod_label shell) (E.write_shell (remove_pod_label shell) u.state)
        ≡ (ok updated, s)
      → E.json_marshal c.node_selector ≡ ok selector
      → is_empty (find_worker (Queue.all u.worker_queue) (request_of E c updated selector)) ≡ true
      → serve E c none shell w ≡ (
        ok none,
        waits E c (record u { state = E.write_shell updated s }) (request_of E c updated selector),
      )
  unfolding serve ensure_worker bind start map_to_json_string ◌>>=◌
  serve-replaces shell updated worker selector r w v u s bound unready given calm stored printed
        nobody =
      rw
        (
          bound,
          drop_unready-drops shell updated worker r v u s unready given calm stored,
          printed,
          borrow-no_worker E (request_of E c updated selector)
              (record u { state = E.write_shell updated s }) nobody,
        )
        refl

  -- A bound worker that is not ready is deleted, the shell is stored without its label, and its request
  -- for another worker waits. The reconcile succeeds without a requeue, whether the deletion succeeds or
  -- fails. The shell is assumed to have no time to live, the deletion not to conflict and not to panic, the shell's update
  -- to succeed, no other worker to fit, and `RetryOnConflict` to behave as documented.
  pub sync_cloud_shell-replaces :
      RetryIsLawful E
      → (shell updated : CloudShell) (worker newer : Pod) (selector : String)
        (r : Result (Unit {0})) (w v : World E) (s s' s'' : E.State)
      → shell.spec.ttl_seconds_after_started ≡ none
      → get_binding_worker_for E shell w ≡ (ok (some worker), v)
      → is_pod_ready worker ≡ false
      → E.lister_pod worker.namespace worker.name v.state ≡ (ok newer, s)
      → is_pod_ready newer ≡ false
      → E.pods.delete newer s ≡ (r, s')
      → r ≢ err conflict
      → r ≢ err panic
      → E.shells.update (remove_pod_label shell) (E.write_shell (remove_pod_label shell) s')
        ≡ (ok updated, s'')
      → E.json_marshal c.node_selector ≡ ok selector
      → is_empty (find_worker (Queue.all v.worker_queue) (request_of E c updated selector)) ≡ true
      → sync_cloud_shell E c shell w ≡ (
        ok none,
        waits E c
            (record v { state = E.write_shell updated s'' })
            (request_of E c updated selector),
      )
  unfolding sync_cloud_shell ◌>>=◌
  sync_cloud_shell-replaces L shell updated worker newer selector r w v s s' s'' no_ttl bound
        unready listed newer_unready deleted clear calm stored printed nobody =
      rw (no_requeue E c shell w no_ttl) (
        serve-replaces shell updated worker selector r w v (record v { state = s' }) s'' bound
          unready (back-deletes L c.pool worker newer r v s s' listed newer_unready deleted clear)
          calm stored printed nobody)
