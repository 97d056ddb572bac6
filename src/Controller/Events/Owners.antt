-- ===== src/Controller/Events/Owners.antt =====
-- Which handler an event of a pod concerns: the pool's `enqueue` of pkg/workerpool/worker_pool.go, or
-- the controller's `enqueueCloudshellForPod`.
use cloudtty.Base.{
  ℕ, String, ◌<>◌, true, false, Option, none, some, ◌≡◌, refl, ◌∙◌, arith, ◌==◌, eq_iff, Bool-cases,
  inl, inr, subst,
}
use cloudtty.Base.Dict.{Dict, lookup-insert}
use cloudtty.Base.Result.{Result, ok}
use cloudtty.Objects.{object, Pod}
use cloudtty.Text.{is_empty}
use cloudtty.Cluster.{Env}
use cloudtty.Cluster.Monad.{Request, World, pure, emit, queue_call, add}
use cloudtty.WorkerPool.Keys.{worker_owner_label_key, is_idle_worker}
use cloudtty.WorkerPool.Lending.{Pool, bind_worker, free_worker, or_empty}
use cloudtty.WorkerPool.Lending.Binding.{label, HasLabels, label-bind_labels}
use cloudtty.WorkerPool.Serving.{enqueue}
use cloudtty.Controller.Sync.{Controller}
use cloudtty.Controller.Events.{enqueue_owner, enqueue_for, enqueue_cloudshell_for_pod}

module _ (E : Env) where
  -- A key added to a work queue.
  abbrev pub told : (queue : ℕ) → String → World E → Result (Unit {0}) × World E
  told queue key w = emit (queue_call queue (add key)) w

  not_empty : (owner : String) → is_empty owner ≡ false → (owner == "") ≡ false
  not_empty owner set = elim (Bool-cases (owner == "")) [
    | inl e ↦ let gone = subst (λ s. is_empty s ≡ false) ((eq_iff owner "").0 e) set in cc
    | inr e ↦ e
  ]

  idle_owned :
      (pod : Pod) (owner : String)
      → label worker_owner_label_key pod.labels ≡ some owner
      → is_idle_worker pod ≡ is_empty owner
  unfolding is_idle_worker
  idle_owned pod owner h = ground arith

  module _ (pool : Pool) (c : Controller) (pod : Pod) (w : World E) where
    -- An event of a worker concerns one handler only: the pool's if nobody owns it, and else the
    -- controller's, which adds the owner's key.
    pub record ToPool : Type 0 where
      pub of_pool :
          enqueue E pool (object pod) w
          ≡ told pool.queue (E.meta_namespace_key pod.namespace pod.name) w
      pub of_controller : enqueue_cloudshell_for_pod E c (object pod) w ≡ (ok tt, w)

    pub record ToOwner (owner : String) : Type 0 where
      pub of_pool : enqueue E pool (object pod) w ≡ (ok tt, w)
      pub of_controller :
          enqueue_cloudshell_for_pod E c (object pod) w
          ≡ told c.queue (pod.namespace <> ("/" <> owner)) w

    pool_told :
        is_idle_worker pod ≡ true
        → enqueue E pool (object pod) w
          ≡ told pool.queue (E.meta_namespace_key pod.namespace pod.name) w
    unfolding enqueue
    pool_told h = rw h refl

    pool_quiet : is_idle_worker pod ≡ false → enqueue E pool (object pod) w ≡ (ok tt, w)
    unfolding enqueue pure
    pool_quiet h = rw h refl

    controller_at :
        (labels : Option Dict) (owner : String)
        → pod.labels ≡ labels
        → label worker_owner_label_key labels ≡ some owner
        → enqueue_cloudshell_for_pod E c (object pod) w ≡ enqueue_owner E c pod.namespace owner w
    unfolding enqueue_cloudshell_for_pod enqueue_for
    controller_at none owner at h = cc
    controller_at (some labels) owner at h = rw (at, h) refl

    informs_pool : label worker_owner_label_key pod.labels ≡ some "" → ToPool
    unfolding enqueue_owner pure
    informs_pool h = record {
      of_pool = pool_told (idle_owned pod "" h);
      of_controller = controller_at pod.labels "" refl h;
    }

    informs_shell :
        (owner : String)
        → is_empty owner ≡ false
        → label worker_owner_label_key pod.labels ≡ some owner
        → ToOwner owner
    unfolding enqueue_owner
    informs_shell owner set h = record {
      of_pool = pool_quiet (idle_owned pod owner h ∙ set);
      of_controller = controller_at pod.labels owner refl h ∙ rw (not_empty owner set) refl;
    }

  bound_owner :
      (req : Request) (pod : Pod)
      → HasLabels pod.labels
      → label worker_owner_label_key (bind_worker E req pod).labels ≡ some req.cloudshell
  unfolding bind_worker
  bound_owner req pod h = label-bind_labels req.cloudshell worker_owner_label_key pod.labels h

  freed_owner : (pod : Pod) → label worker_owner_label_key (free_worker E pod).labels ≡ some ""
  unfolding free_worker
  freed_owner pod =
      lookup-insert worker_owner_label_key worker_owner_label_key "" (or_empty pod.labels)

  -- As `Borrow` binds a pod, the pool's handler passes over its events, and the controller's adds the
  -- key of the shell that asked for it; as `Back` frees a pod, the pool's handler adds its key, and
  -- the controller's passes over it. The bound pod is assumed to have a label, and the shell a name.
  pub events_follow_owner :
      (pool : Pool) (c : Controller) (req : Request) (pod : Pod) (w : World E)
      → HasLabels pod.labels
      → is_empty req.cloudshell ≡ false
      → ToOwner pool c (bind_worker E req pod) w req.cloudshell
        × ToPool pool c (free_worker E pod) w
  events_follow_owner pool c req pod w labelled named = (
    informs_shell pool c _ w req.cloudshell named (bound_owner req pod labelled),
    informs_pool pool c _ w (freed_owner pod),
  )
