-- ===== src/Controller/Events.antt =====
-- `processNextItem` and the informers' handlers of pkg/controllers/cloudshell_controller.go.
pub mod Outcomes
pub mod Owners
use cloudtty.Base.{
  ℕ, String, ◌<>◌, Bool, true, false, not, ◌||◌, Option, none, some, if◌then◌else◌, ◌==◌,
}
use cloudtty.Base.Dict.{lookup}
use cloudtty.Base.Int.{ℤ}
use cloudtty.Base.Result.{Error, panic, Result, ok, err}
use cloudtty.Objects.{Informed, object, tombstone, other_object, CloudShell, Pod}
use cloudtty.Cluster.{Env}
use cloudtty.Cluster.Monad.{
  M, ◌>>=◌, ◌>>◌, pure, fail, attempt, emit, queue_call, add, add_after, add_rate_limited, forget,
  done,
}
use cloudtty.WorkerPool.Keys.{worker_owner_label_key}
use cloudtty.WorkerPool.Scaling.{text_of}
use cloudtty.Controller.Sync.{Controller, sync_handler}

-- An event of an informer, with its objects.
pub data InformerEvent (A : Type 0) : Type 0 where
  added deleted : Informed A → InformerEvent A
  updated : Informed A → Informed A → InformerEvent A

module _ (E : Env) (c : Controller) where
  -- The key is forgotten only if it is due again. A panic goes on and ends the process.
  unfoldable pub settle_item : String → Result (Option ℤ) → M E (Unit {0})
  settle_item key (err panic) = fail panic
  settle_item key (err e) = emit (queue_call c.queue (add_rate_limited key))
  settle_item key (ok none) = pure tt
  settle_item key (ok (some t)) =
      emit (queue_call c.queue (forget key)) >> emit (queue_call c.queue (add_after key t))

  -- `processNextItem` for a key that the queue hands out.
  unfoldable pub process_next_item : String → M E Bool
  process_next_item key = do
    outcome ← attempt (sync_handler E c key)
    settle_item key outcome
    emit (queue_call c.queue (done key))
    pure true

  -- `enqueue`, whose `obj.(*cloudshellv1alpha1.CloudShell)` panics on a tombstone.
  unfoldable pub enqueue_cloudshell : Informed CloudShell → M E (Unit {0})
  enqueue_cloudshell (tombstone _) = fail panic
  enqueue_cloudshell other_object = fail panic
  enqueue_cloudshell (object shell) =
      emit (queue_call c.queue (add (E.meta_namespace_key shell.namespace shell.name)))

  abbrev pub is_deleted : Option ℕ → Bool
  is_deleted none = false
  is_deleted (some _) = true

  -- The informer's `UpdateFunc`.
  unfoldable pub enqueue_update : CloudShell → CloudShell → M E (Unit {0})
  enqueue_update older newer =
      if not (E.same_spec older.spec newer.spec) || is_deleted newer.deletion_timestamp
      then enqueue_cloudshell (object newer)
      else pure tt

  abbrev pub informed_pod : Informed Pod → Option Pod
  informed_pod (object pod) = some pod
  informed_pod (tombstone pod) = pod
  informed_pod other_object = none

  unfoldable pub enqueue_owner : String → String → M E (Unit {0})
  enqueue_owner namespace owner =
      if owner == "" then pure tt else emit (queue_call c.queue (add (namespace <> ("/" <> owner))))

  unfoldable pub enqueue_for : Option Pod → M E (Unit {0})
  enqueue_for none = pure tt
  enqueue_for (some pod) = elim pod.labels [
    | none ↦ pure tt
    | some labels ↦ enqueue_owner pod.namespace (text_of (lookup worker_owner_label_key labels))
  ]

  unfoldable pub enqueue_cloudshell_for_pod : Informed Pod → M E (Unit {0})
  enqueue_cloudshell_for_pod event = enqueue_for (informed_pod event)

  -- `newObj.(*cloudshellv1alpha1.CloudShell)` panics on anything else.
  unfoldable pub update_shell : Informed CloudShell → Informed CloudShell → M E (Unit {0})
  update_shell (object older) (object newer) = enqueue_update older newer
  update_shell _ _ = fail panic

  -- The handlers that `New` gives to the informer of the shells, and to that of the pods.
  unfoldable pub handle_shell : InformerEvent CloudShell → M E (Unit {0})
  unfolding update_shell
  handle_shell (added event) = enqueue_cloudshell event
  handle_shell (updated older newer) = update_shell older newer
  handle_shell (deleted event) = enqueue_cloudshell event

  unfoldable pub handle_pod : InformerEvent Pod → M E (Unit {0})
  handle_pod (added event) = enqueue_cloudshell_for_pod event
  handle_pod (updated _ newer) = enqueue_cloudshell_for_pod newer
  handle_pod (deleted event) = enqueue_cloudshell_for_pod event
