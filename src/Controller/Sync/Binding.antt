-- ===== src/Controller/Sync/Binding.antt =====
-- A shell whose worker is lent, and whose own update then fails (`syncCloudShell` of
-- pkg/controllers/cloudshell_controller.go).
use cloudtty.Base.{
  String, true, false, [], ◌∷◌, Option, none, some, ◌≡◌, refl, sym, ◌∙◌, subst, contains, string_eq,
}
use cloudtty.Base.Result.{Error, Result, ok, err}
use cloudtty.Objects.{CloudShell, Pod}
use cloudtty.Base.Dict.{Dict, lookup-insert}
use cloudtty.Text.{is_empty}
use cloudtty.Queue
use cloudtty.Queue.Invariant.{Inv}
use cloudtty.Cluster.{Env, RetryIsLawful}
use cloudtty.Cluster.Monad.{Request, World, ◌>>=◌, string_item, request_item}
use cloudtty.WorkerPool.Keys.{worker_key, worker_owner_label_key}
use cloudtty.WorkerPool.Creation.{map_to_json_string}
use cloudtty.WorkerPool.Matching.{find_worker}
use cloudtty.WorkerPool.Lending.{borrow, bind_worker, bind_labels, or_empty}
use cloudtty.WorkerPool.Lending.Binding.{label, HasLabels, label-bind_labels}
use cloudtty.WorkerPool.Lending.Storing.{IsStored, IsTried, listed, tried_again}
use cloudtty.WorkerPool.Lending.Borrowing.{borrow-ok}
use cloudtty.Controller.Defaults.Failing.{ShellCacheIsShared, save_shell-err}
use cloudtty.Controller.Labels.{
  cloudshell_pod_label_key, pod_label, add_label, truncate_and_hash_if_exceed,
}
use cloudtty.Controller.Sync.{
  Controller, drop_unready, bind, ensure_worker, serve, sync_cloud_shell,
}
use cloudtty.Controller.Sync.Waiting.{
  no_requeue, not_bound, request_of, waits, sync_cloud_shell-waits,
}

ok-injective : {p q : Pod} → ◌≡◌ {A = Result Pod} (ok p) (ok q) → p ≡ q
ok-injective h = cc

HasLabels-label :
    (k value : String) (labels : Option Dict) → label k labels ≡ some value → HasLabels labels
HasLabels-label k value none h = cc
HasLabels-label k value (some []) h = cc
HasLabels-label k value (some (_ ∷ _)) h = tt

owner-bind_labels :
    (req : Request) (worker : Pod)
    → HasLabels worker.labels
    → label worker_owner_label_key (bind_labels req.cloudshell worker.labels) ≡ some req.cloudshell
owner-bind_labels req worker h =
    label-bind_labels req.cloudshell worker_owner_label_key worker.labels h

module _ (E : Env) (c : Controller) where
  -- The shell with the label of the worker.
  abbrev pub labelled : CloudShell → Pod → CloudShell
  labelled shell worker = add_label E shell cloudshell_pod_label_key worker.name

  sync_cloud_shell-unbound :
      (shell : CloudShell) (worker : Pod) (selector : String) (e : Error) (w v : World E)
      (s : E.State)
      → shell.spec.ttl_seconds_after_started ≡ none
      → is_empty (pod_label shell) ≡ true
      → E.json_marshal c.node_selector ≡ ok selector
      → borrow E (request_of E c shell selector) w ≡ (ok worker, v)
      → E.shells.update (labelled shell worker) (E.write_shell (labelled shell worker) v.state)
        ≡ (err e, s)
      → sync_cloud_shell E c shell w ≡ (err e, record v { state = s })
  unfolding sync_cloud_shell serve drop_unready ensure_worker bind map_to_json_string ◌>>=◌
  sync_cloud_shell-unbound shell worker selector e w v s no_ttl unbound printed lent fails =
      rw
        (
          no_requeue E c shell w no_ttl,
          not_bound E c shell w unbound,
          printed,
          lent,
          save_shell-err E (labelled shell worker) e v s fails,
        )
        refl

  -- Every pod that the body of `Borrow` starts from has labels, if the listed one has.
  tried-HasLabels :
      (req : Request) (worker p : Pod)
      → IsTried E req worker p
      → HasLabels worker.labels
      → HasLabels p.labels
  unfolding bind_worker
  tried-HasLabels req worker p listed h = h
  tried-HasLabels req worker _ (tried_again {p} tried) h =
      HasLabels-label worker_owner_label_key req.cloudshell _
        (owner-bind_labels req p (tried-HasLabels req worker p tried h))

  -- The server has answered an update that sent the pod with this owner.
  abbrev pub IsOwned : String → Pod → Type 0
  IsOwned owner stored =
      (sent : Pod) × (s₀ s₁ : E.State) × (E.pods.update sent (E.write_pod sent s₀)
        ≡ (ok stored, s₁))
      × (label worker_owner_label_key sent.labels ≡ some owner)

  stored-IsOwned :
      (req : Request) (worker pod : Pod) (s : E.State)
      → HasLabels worker.labels
      → IsStored E req worker pod s
      → IsOwned req.cloudshell pod
  unfolding bind_worker
  stored-IsOwned req worker pod s h (p, tried, s₀, s₁, e, written) = (
    bind_worker E req p,
    s₀,
    s₁,
    e,
    owner-bind_labels req p (tried-HasLabels req worker p tried h),
  )

  pod_label-labelled :
      (shell : CloudShell) (worker : Pod)
      → pod_label (labelled shell worker) ≡ truncate_and_hash_if_exceed E worker.name
  unfolding pod_label add_label
  pod_label-labelled shell worker =
      rw
        (lookup-insert cloudshell_pod_label_key cloudshell_pod_label_key
          (truncate_and_hash_if_exceed E worker.name) (or_empty shell.labels))
        refl

  -- A shell that gets a worker, and whose own update then fails, loses it: the reconcile fails with the
  -- update's error; the worker has left the pool's queue, and the server has answered an update that
  -- sent it as `bind_worker` made it, with the shell as its owner; the informer's cache holds the shell with the label that
  -- names the worker, shortened if it is long, which the server never stored; and when the cache
  -- holds the shell as the server has it again, reconciling it waits for another worker. The shell
  -- is assumed to be unbound and to have no time to live, the pod that the lister gives for the first
  -- fitting key to have a label, no other worker to fit, the queue to be well-formed, the cache to
  -- share its objects and to hold the shell, and `RetryOnConflict` to behave as documented.
  pub bind-failed :
      RetryIsLawful E
      → ShellCacheIsShared E
      → (shell cached : CloudShell) (offered worker : Pod) (selector : String) (e : Error)
        (w v : World E) (s s' : E.State)
      → Inv w.worker_queue
      → shell.spec.ttl_seconds_after_started ≡ none
      → is_empty (pod_label shell) ≡ true
      → E.json_marshal c.node_selector ≡ ok selector
      → (E.lister_pod shell.namespace
          (find_worker (Queue.all w.worker_queue) (request_of E c shell selector))
          w.state).0
        ≡ ok offered
      → HasLabels offered.labels
      → borrow E (request_of E c shell selector) w ≡ (ok worker, v)
      → is_empty (find_worker (Queue.all v.worker_queue) (request_of E c shell selector)) ≡ true
      → (E.lister_shell shell.namespace shell.name v.state).0 ≡ ok cached
      → E.shells.update (labelled shell worker) (E.write_shell (labelled shell worker) v.state)
        ≡ (err e, s)
      → (sync_cloud_shell E c shell w ≡ (err e, record v { state = s }))
        × (contains v.worker_queue.queue (worker_key worker) ≡ false)
        × IsStored E (request_of E c shell selector) offered worker v.state
        × IsOwned shell.name worker
        × (pod_label (labelled shell worker) ≡ truncate_and_hash_if_exceed E worker.name)
        × ((E.lister_shell shell.namespace shell.name s).0 ≡ ok (labelled shell worker))
        × (sync_cloud_shell E c shell (record v { state = s' })
            ≡ (ok none, waits E c (record v { state = s' }) (request_of E c shell selector)))
  unfolding add_label
  bind-failed L C shell cached offered worker selector e w v s s' good no_ttl unbound printed given
        labels lent nobody holds fails =
      let (key, waits, fit, named, found, given', stored, gone, queue, requests, events) =
        borrow-ok E L (request_of E c shell selector) worker w v good lent in
      let stored_offered : IsStored E (request_of E c shell selector) offered worker v.state =
        subst (λ (p : Pod). IsStored E (request_of E c shell selector) p worker v.state)
          (ok-injective (sym (rw named given') ∙ given)) stored in
      (
        sync_cloud_shell-unbound shell worker selector e w v s no_ttl unbound printed lent fails,
        gone,
        stored_offered,
        stored-IsOwned (request_of E c shell selector) offered worker v.state labels stored_offered,
        pod_label-labelled shell worker,
        C.reads-failed (labelled shell worker) (labelled shell worker) e _ s
            (C.reads-write cached (labelled shell worker) v.state holds) fails,
        sync_cloud_shell-waits E c shell selector (record v { state = s' }) no_ttl unbound printed
            nobody,
      )
