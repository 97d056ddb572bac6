-- ===== src/Controller/Sync/Success.antt =====
-- The ways in which `syncCloudShell` of pkg/controllers/cloudshell_controller.go succeeds.
use cloudtty.Base.{
  String, Bool, true, false, Option, none, some, ◌≡◌, refl, sym, ◌∙◌, Bool-cases, inl, inr, subst,
}
use cloudtty.Base.Int.{ℤ}
use cloudtty.Base.Result.{no_worker, Result, ok, err}
use cloudtty.Objects.{CloudShell, Pod}
use cloudtty.Cluster.{Env, RetryIsLawful}
use cloudtty.Cluster.Monad.{World, M, pure, from_result, ◌>>=◌, save_shell}
use cloudtty.Cluster.Monad.Success.{bind-inv, pure-same, pair-same, fail-ne-ok, attempt-inv}
use cloudtty.Pods.{is_pod_ready}
use cloudtty.WorkerPool.Creation.{wrap}
use cloudtty.WorkerPool.Lending.{borrow}
use cloudtty.Controller.Labels.{cloudshell_pod_label_key, remove_pod_label, add_label}
use cloudtty.Controller.Sync.{
  Controller, next_requeue_time_duration, is_over, get_binding_worker_for, remove_cloudshell,
  complete, expire, drop_unready, reassign, bind, ensure_worker, start, serve, sync_cloud_shell,
}
use cloudtty.Controller.Sync.Starting.{IsStarted, start-IsStarted}
use cloudtty.Controller.Sync.Waiting.{request_of}

module _ (E : Env) (c : Controller) where
  -- The shell if it has no worker, or, if its worker is not ready, the server's answer to its update
  -- without the label of its pod.
  pub data Unbound (shell : CloudShell) (v : World E) : CloudShell → Type 0 where
    as_given :
        (u : World E) → get_binding_worker_for E shell v ≡ (ok none, u) → Unbound shell v shell
    unlabelled :
        {p : CloudShell} (worker : Pod) (u x y : World E)
        → get_binding_worker_for E shell v ≡ (ok (some worker), u)
        → is_pod_ready worker ≡ false
        → save_shell {E = E} (remove_pod_label shell) x ≡ (ok p, y)
        → Unbound shell v p

  -- The shell as it is bound, and its worker: the ready one that its label names, or one that is
  -- borrowed for it and whose name the server has stored in its label.
  pub data IsBound (shell : CloudShell) (v : World E) : CloudShell → Pod → World E → Type 0 where
    kept :
        {worker : Pod} {u : World E}
        → get_binding_worker_for E shell v ≡ (ok (some worker), u)
        → is_pod_ready worker ≡ true
        → IsBound shell v shell worker u
    lent :
        (p : CloudShell) {current : CloudShell} {worker : Pod} (selector : String) (x y : World E)
        {u : World E}
        → Unbound shell v p
        → borrow E (request_of E c p selector) x ≡ (ok worker, y)
        → save_shell {E = E} (add_label E p cloudshell_pod_label_key worker.name) y
          ≡ (ok current, u)
        → IsBound shell v current worker u

  -- The three ways in which a shell is reconciled without an error, with what is returned.
  pub data Outcome (shell : CloudShell) (w w' : World E) : Option ℤ → Type 0 where
    expires :
        (t : Option ℤ) (removed : CloudShell) (v u : World E)
        → next_requeue_time_duration E shell w ≡ (ok t, v)
        → is_over t ≡ true
        → remove_cloudshell E c shell v ≡ (ok removed, u)
        → complete E c removed u ≡ (ok tt, w')
        → Outcome shell w w' none
    awaits :
        (t : Option ℤ) (p : CloudShell) (selector : String) (v x : World E)
        → next_requeue_time_duration E shell w ≡ (ok t, v)
        → is_over t ≡ false
        → Unbound shell v p
        → borrow E (request_of E c p selector) x ≡ (err no_worker, w')
        → Outcome shell w w' none
    starts :
        {t : Option ℤ} (current : CloudShell) (worker : Pod) (v u : World E)
        → next_requeue_time_duration E shell w ≡ (ok t, v)
        → is_over t ≡ false
        → IsBound shell v current worker u
        → IsStarted E c current worker u w'
        → Outcome shell w w' t

  module _ (L : RetryIsLawful E) (shell : CloudShell) (t : Option ℤ) (w v w' : World E) where
    module _ (left : next_requeue_time_duration E shell w ≡ (ok t, v))
        (live : is_over t ≡ false) where
      started-Outcome :
          (r : Option ℤ) (current : CloudShell) (worker : Pod) (u : World E)
          → IsBound shell v current worker u
          → start E c t (some (current, worker)) u ≡ (ok r, w')
          → Outcome shell w w' r
      started-Outcome r current worker u bound h =
          let (same, started) = start-IsStarted E c L t r current worker u w' h in
          subst (Outcome shell w w') (sym same) (starts current worker v u left live bound started)

      awaited-Outcome :
          (r : Option ℤ) (p : CloudShell) (selector : String) (x y : World E)
          → Unbound shell v p
          → borrow E (request_of E c p selector) x ≡ (err no_worker, y)
          → start E c t none y ≡ (ok r, w')
          → Outcome shell w w' r
      unfolding start
      awaited-Outcome r p selector x y unbound lends h =
          let (nothing, same) = pure-same none r y w' h in
          subst (Outcome shell w w') nothing (
            awaits t p selector v x left live unbound (
              subst (λ (z : World E). borrow E (request_of E c p selector) x ≡ (err no_worker, z))
                same lends))

      bound-Outcome :
          (r : Option ℤ) (p : CloudShell) (selector : String) (borrowed : Result Pod)
          (q : Option (CloudShell × Pod)) (x y u : World E)
          → Unbound shell v p
          → borrow E (request_of E c p selector) x ≡ (borrowed, y)
          → bind E c p borrowed y ≡ (ok q, u)
          → start E c t q u ≡ (ok r, w')
          → Outcome shell w w' r
      unfolding bind
      bound-Outcome r p selector (ok worker) q x y u unbound lends binds h =
          bind-inv _ _ binds (λ current z saves ends.
            let (which, where_) = pure-same (some (current, worker)) q z u ends in
            started-Outcome r current worker z (lent p selector x y unbound lends saves)
              (rw (which, where_) h))
      bound-Outcome r p selector (err no_worker) q x y u unbound lends binds h =
          let (which, where_) = pure-same none q y u binds in
          awaited-Outcome r p selector x y unbound lends (rw (which, where_) h)
      bound-Outcome r p selector (err _) q x y u unbound lends binds h =
          absurd (fail-ne-ok _ q y u binds)

      ensured-Outcome :
          (r : Option ℤ) (p : CloudShell) (q : Option (CloudShell × Pod)) (x u : World E)
          → Unbound shell v p
          → ensure_worker E c p none x ≡ (ok q, u)
          → start E c t q u ≡ (ok r, w')
          → Outcome shell w w' r
      unfolding ensure_worker
      ensured-Outcome r p q x u unbound ensures h = bind-inv _ _ ensures (λ selector y printed h1.
          bind-inv _ _ h1 (λ borrowed z tried h2.
            bound-Outcome r p selector borrowed q y z u unbound (attempt-inv _ borrowed y z tried)
              h2 h))

      -- The rest of `serve`, for a shell and the worker that it keeps.
      abbrev goes_on : CloudShell → Option Pod → M E (Option ℤ)
      goes_on current kept_ = ensure_worker E c current kept_ >>= start E c t

      from_pure :
          (r : Option ℤ) (p current : CloudShell) (k kept_ : Option Pod) (x y : World E)
          → pure {E = E} {A = CloudShell × Option Pod} (p, k) x ≡ (ok (current, kept_), y)
          → goes_on current kept_ y ≡ (ok r, w')
          → goes_on p k x ≡ (ok r, w')
      from_pure r p current k kept_ x y h go =
          let (which, where_) = pure-same (p, k) (current, kept_) x y h in
          subst (λ (z : (CloudShell × Option Pod) × World E). goes_on z.0.0 z.0.1 z.1 ≡ (ok r, w'))
            (sym (pair-same which where_)) go

      unkept-Outcome :
          (r : Option ℤ) (p : CloudShell) (x : World E)
          → Unbound shell v p
          → goes_on p none x ≡ (ok r, w')
          → Outcome shell w w' r
      unkept-Outcome r p x unbound h =
          bind-inv _ _ h (λ q u ensures go. ensured-Outcome r p q x u unbound ensures go)

      ready-Outcome :
          (ready : Bool) (r : Option ℤ) (worker : Pod) (x : World E)
          → get_binding_worker_for E shell v ≡ (ok (some worker), x)
          → is_pod_ready worker ≡ ready
          → (reassign E c ready shell worker >>= λ (current, kept_). goes_on current kept_) x
            ≡ (ok r, w')
          → Outcome shell w w' r
      unfolding reassign ensure_worker
      ready-Outcome true r worker x bound ready h = bind-inv _ _ h (λ (current, kept_) y keeps h1.
          bind-inv _ _ (from_pure r shell current (some worker) kept_ x y keeps h1)
            (λ q u ensures h2.
              let (which, where_) = pure-same (some (shell, worker)) q x u ensures in
              started-Outcome r shell worker x (kept bound ready) (rw (which, where_) h2)))
      ready-Outcome false r worker x bound ready h = bind-inv _ _ h (λ (current, kept_) y drops h1.
          bind-inv _ _ drops (λ outcome z backs d1. bind-inv _ _ d1 (λ calm z1 goes d2.
            bind-inv _ _ d2 (λ p z2 saves d3.
              unkept-Outcome r p z2 (unlabelled worker x z1 z2 bound ready saves)
                (from_pure r p current none kept_ z2 y d3 h1)))))

      kept-Outcome :
          (r : Option ℤ) (found : Option Pod) (x : World E)
          → get_binding_worker_for E shell v ≡ (ok found, x)
          → (drop_unready E c shell found >>= λ (current, kept_). goes_on current kept_) x
            ≡ (ok r, w')
          → Outcome shell w w' r
      unfolding drop_unready
      kept-Outcome r (some worker) x bound h =
          ready-Outcome (is_pod_ready worker) r worker x bound refl h
      kept-Outcome r none x bound h = bind-inv _ _ h (λ (current, kept_) y keeps h1.
          unkept-Outcome r shell x (as_given x bound)
            (from_pure r shell current none kept_ x y keeps h1))

      found-Outcome :
          (r : Option ℤ) (tried : Result (Option Pod)) (found : Option Pod) (x y : World E)
          → get_binding_worker_for E shell v ≡ (tried, x)
          → from_result (wrap "failed to get binding worker for cloudshell" tried) x ≡ (ok found, y)
          → (drop_unready E c shell found >>= λ (current, kept_). goes_on current kept_) y
            ≡ (ok r, w')
          → Outcome shell w w' r
      unfolding from_result
      found-Outcome r (ok pod) found x y bound wraps h = kept-Outcome r found y (bound ∙ wraps) h
      found-Outcome r (err e) found x y bound wraps h = cc

      serve-Outcome : (r : Option ℤ) → serve E c t shell v ≡ (ok r, w') → Outcome shell w w' r
      unfolding serve
      serve-Outcome r h = bind-inv _ _ h (λ tried x gets h1. bind-inv _ _ h1 (λ found y wraps h2.
          found-Outcome r tried found x y (attempt-inv _ tried v x gets) wraps h2))

    expired-Outcome :
        (r : Option ℤ)
        → next_requeue_time_duration E shell w ≡ (ok t, v)
        → is_over t ≡ true
        → expire E c shell v ≡ (ok r, w')
        → Outcome shell w w' r
    unfolding expire
    expired-Outcome r left over h = bind-inv _ _ h (λ removed x removes h1.
        bind-inv _ _ h1 (λ done y completes h2.
          let (nothing, where_) = pure-same none r y w' h2 in
          subst (Outcome shell w w') nothing (
            expires t removed v x left over removes
              (subst (λ (z : World E). complete E c removed x ≡ (ok tt, z)) where_ completes))))

  -- A call of `syncCloudShell` that succeeds has done one of three things. The shell's time was
  -- over: the shell was removed and completed, and there is no requeue. Or a worker was asked for,
  -- since the shell's own was not ready or there was none, and `Borrow` had none: nothing was done
  -- after that, and there is no requeue. Or the shell has a worker, the ready one that its label
  -- names, or, only if that is not ready or there is none, a borrowed one whose name the server has
  -- stored in its label: its route was made; then its terminal was started in the pod; then the
  -- server accepted, as the last call, a status of the shell, as it is then or as the lister gives
  -- it, with the phase Ready, the URL of the route with the time to live if there is one, and the
  -- time of the first start, which is the present one only if there is none yet; and the time left
  -- is returned. `RetryOnConflict` is assumed to behave as documented.
  pub sync_cloud_shell-succeeds :
      RetryIsLawful E
      → (shell : CloudShell) (r : Option ℤ) (w w' : World E)
      → sync_cloud_shell E c shell w ≡ (ok r, w')
      → Outcome shell w w' r
  unfolding sync_cloud_shell
  sync_cloud_shell-succeeds L shell r w w' h = bind-inv _ _ h (λ t v left h1.
      elim (Bool-cases (is_over t)) [
        | inl over ↦ expired-Outcome L shell t w v w' r left over (sym (rw over refl) ∙ h1)
        | inr live ↦ serve-Outcome L shell t w v w' left live r (sym (rw live refl) ∙ h1)
      ])
