-- ===== src/Controller/Sync/Removing.antt =====
-- The end of a shell (`removeCloudshell` of pkg/controllers/cloudshell_controller.go).
use cloudtty.Base.{
  ◌<◌, String, Option, none, some, true, false, [], ◌∷◌, ◌++◌, ◌≡◌, refl, sym, ◌∙◌, ap, arith,
  string_eq, contains, contains-concat, Bool-cases, inl, inr, eq_iff,
}
use cloudtty.Base.Result.{Error, ok, err}
use cloudtty.Objects.{CloudShell, Pod}
use cloudtty.Text.{is_empty}
use cloudtty.Queue
use cloudtty.Queue.{Queue}
use cloudtty.Queue.Invariant.{Inv, remove-Inv}
use cloudtty.Cluster.{Env, RetryIsLawful}
use cloudtty.Cluster.Monad.{
  Request, World, M, ◌>>=◌, ◌>>◌, string_item, request_item, string_item-IsExact,
}
use cloudtty.Pods.{is_pod_ready}
use cloudtty.WorkerPool.Keys.{worker_key, worker_owner_label_key, is_idle_worker}
use cloudtty.WorkerPool.Matching.{find_request}
use cloudtty.WorkerPool.Lending.{borrow, back, free_worker}
use cloudtty.WorkerPool.Lending.Binding.{label}
use cloudtty.WorkerPool.Lending.Borrowing.{borrow-ok}
use cloudtty.WorkerPool.Lending.Failing.{owned-not_idle, free_worker-idle}
use cloudtty.WorkerPool.Lending.Returning.{back_keeps, signals}
use cloudtty.Controller.Labels.{pod_label, remove_pod_label}
use cloudtty.Controller.Routes.{remove_cloudshell_route}
use cloudtty.Controller.Startup.{exec_command, reset_worker}
use cloudtty.Controller.Sync.{
  Controller, bound_pod, get_binding_worker_for, give_back, remove_cloudshell, remove_finalizer,
}

present-add :
    (q : Queue String) (key : String) → Inv q → contains (Queue.add q key).queue key ≡ true
unfolding Queue.add
present-add q key v = elim (Bool-cases (contains q.dirty key)) [
  | inl old ↦ rw old (sym (v.agrees key) ∙ old)
  | inr new ↦ rw (new, contains-concat q.queue key key) (ground (arith, (eq_iff key key).1 refl))
]

module _ (E : Env) (c : Controller) where
  -- If the bound worker cannot be given back, removing a shell fails with that error, in the state
  -- in which `Back` ended: neither its route nor its finalizer has been removed.
  pub remove_cloudshell_fails :
      (shell : CloudShell) (worker : Pod) (e : Error) (w v u : World E)
      → get_binding_worker_for E shell w ≡ (ok (some worker), v)
      → back E c.pool worker (reset_worker E shell v).1 ≡ (err e, u)
      → remove_cloudshell E c shell w ≡ (err e, u)
  unfolding remove_cloudshell give_back ◌>>=◌
  remove_cloudshell_fails shell worker e w v u bound failed = rw (bound, failed) refl

  -- What is left when the worker has been given back.
  abbrev pub leave : CloudShell → M E CloudShell
  leave shell = do remove_cloudshell_route E shell; remove_finalizer E shell

  abbrev pub written : CloudShell → World E → World E
  written shell w = record w { state = E.write_shell shell w.state }

  give_back-ok :
      (shell : CloudShell) (worker : Pod) (v u : World E)
      → back E c.pool worker (reset_worker E shell v).1 ≡ (ok tt, u)
      → give_back E c shell (some worker) v
        ≡ (ok (remove_pod_label shell), written (remove_pod_label shell) u)
  unfolding give_back ◌>>=◌
  give_back-ok shell worker v u given = rw given refl

  remove_cloudshell-leaves :
      (shell : CloudShell) (worker : Pod) (w v u : World E)
      → get_binding_worker_for E shell w ≡ (ok (some worker), v)
      → back E c.pool worker (reset_worker E shell v).1 ≡ (ok tt, u)
      → remove_cloudshell E c shell w
        ≡ leave (remove_pod_label shell) (written (remove_pod_label shell) u)
  unfolding remove_cloudshell ◌>>=◌
  remove_cloudshell-leaves shell worker w v u bound given =
      rw (bound, give_back-ok shell worker v u given) refl

  bound_worker :
      (shell : CloudShell) (worker : Pod) (w : World E) (s : E.State)
      → is_empty (pod_label shell) ≡ false
      → E.lister_pod shell.namespace (pod_label shell) w.state ≡ (ok worker, s)
      → get_binding_worker_for E shell w ≡ (ok (some worker), record w { state = s })
  unfolding get_binding_worker_for bound_pod ◌>>=◌
  bound_worker shell worker w s named listed = rw (named, listed) refl

  -- The state after the reset script has run in the pod that the label names.
  abbrev pub reset : CloudShell → E.State → E.State
  reset shell s = (E.exec shell.namespace (pod_label shell) ("/usr/lib/ttyd/reset.sh" ∷ []) s).1

  reset_worker-reset :
      (shell : CloudShell) (w : World E)
      → (reset_worker E shell w).1 ≡ record w { state = reset shell w.state }
  unfolding reset_worker exec_command ◌>>=◌
  reset_worker-reset shell w = refl

  -- The shell's worker is found by its label, reset and given back, and then the rest is done.
  removes_in :
      (shell : CloudShell) (worker : Pod) (w u : World E) (s : E.State)
      → is_empty (pod_label shell) ≡ false
      → E.lister_pod shell.namespace (pod_label shell) w.state ≡ (ok worker, s)
      → back E c.pool worker (record w { state = reset shell s }) ≡ (ok tt, u)
      → remove_cloudshell E c shell w
        ≡ leave (remove_pod_label shell) (written (remove_pod_label shell) u)
  removes_in shell worker w u s named listed given =
      remove_cloudshell-leaves shell worker w (record w { state = s }) u
        (bound_worker shell worker w s named listed)
        (ap (back E c.pool worker) (reset_worker-reset shell (record w { state = s })) ∙ given)

  -- The end of a shell is not safe to retry. Its worker, which the lister gives for its label, is
  -- reset and given back; then its route, its finalizer or its update fails, and the reconcile fails.
  -- In whatever state of the cluster another shell borrows a worker next, with the key of that worker
  -- out of the queue: if it is the pod with the same name, which the lister gives with the other shell
  -- as its owner, then the retry, when the cache holds the shell as the server does, runs the reset
  -- script in the pod of that name and gives it back: it is stored without an owner, and its key waits
  -- in the worker queue again. The worker is assumed to be ready, a request to wait for it or the
  -- queue to have room, its update to succeed, the queue to be well-formed when the other shell
  -- borrows, and `RetryOnConflict` to behave as documented.
  pub remove_cloudshell-retried :
      RetryIsLawful E
      → (shell : CloudShell) (worker lent stored : Pod) (other : Request) (req : Option Request)
        (e : Error) (w u x y : World E) (s s₁ s₂ s₃ s₄ : E.State)
      → is_empty (pod_label shell) ≡ false
      → E.lister_pod shell.namespace (pod_label shell) w.state ≡ (ok worker, s)
      → back E c.pool worker (record w { state = reset shell s }) ≡ (ok tt, u)
      → leave (remove_pod_label shell) (written (remove_pod_label shell) u) ≡ (err e, x)
      → Inv x.worker_queue
      → borrow E other (record x { state = s₁ }) ≡ (ok lent, y)
      → lent.namespace ≡ shell.namespace
      → lent.name ≡ pod_label shell
      → label worker_owner_label_key lent.labels ≡ some other.cloudshell
      → is_empty other.cloudshell ≡ false
      → E.lister_pod shell.namespace (pod_label shell) y.state ≡ (ok lent, s₂)
      → E.lister_pod shell.namespace (pod_label shell) (reset shell s₂) ≡ (ok lent, s₃)
      → is_pod_ready lent ≡ true
      → find_request y.request_queue.queue lent ≡ ok req
      → (req ≡ none → Queue.len y.worker_queue < c.pool.max_worker_limit)
      → E.pods.update (free_worker E lent) (E.write_pod (free_worker E lent) s₃) ≡ (ok stored, s₄)
      → (remove_cloudshell E c shell w ≡ (err e, x))
        × (is_idle_worker lent ≡ false)
        × (contains y.worker_queue.queue (worker_key lent) ≡ false)
        × (is_idle_worker (free_worker E lent) ≡ true)
        × (contains (Queue.add y.worker_queue (worker_key lent)).queue (worker_key lent) ≡ true)
        × (remove_cloudshell E c shell y
            ≡ leave (remove_pod_label shell) (
                written (remove_pod_label shell) (record y {
                  worker_queue = Queue.add y.worker_queue (worker_key lent);
                  events = signals E req ++ y.events;
                  state = E.write_pod stored s₄;
                })))
  remove_cloudshell-retried L shell worker lent stored other req e w u x y s s₁ s₂ s₃ s₄ named
        listed given left good taken in_namespace of_name owned someone listed_again still ready
        fits room done =
      let (key, waits, fit, found, offered, offer, sent, gone, removed, requests, events) =
        borrow-ok E L other lent (record x { state = s₁ }) y good taken in
      (
        removes_in shell worker w u s named listed given ∙ left,
        owned-not_idle lent other.cloudshell owned someone,
        gone,
        free_worker-idle E lent,
        present-add y.worker_queue (worker_key lent)
            (rw removed (remove-Inv string_item-IsExact x.worker_queue (worker_key lent) good)),
        removes_in shell lent y _ s₂ named listed_again (
            back_keeps E L c.pool lent lent stored req (record y { state = reset shell s₂ }) s₃ s₄
              (ap (λ (n : String). E.lister_pod n lent.name (reset shell s₂)) in_namespace
                ∙ ap (λ (n : String). E.lister_pod shell.namespace n (reset shell s₂)) of_name
                ∙ still)
              ready fits room done),
      )
