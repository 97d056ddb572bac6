-- ===== src/Controller/Sync/Starting.antt =====
-- The terminal of a shell that has a worker is started (`syncCloudShell` of
-- pkg/controllers/cloudshell_controller.go).
use cloudtty.Base.{
  ℕ, String, ◌<>◌, Bool, true, false, Option, none, some, ◌≡◌, refl, sym, ap, arith, subst,
}
use cloudtty.Base.Int.{ℤ}
use cloudtty.Base.Result.{conflict, Result, ok, err}
use cloudtty.Objects.{CloudShell, CloudShellStatus, Pod}
use cloudtty.Text.Decimal.{show_int}
use cloudtty.Cluster.{Env, RetryIsLawful, default_backoff}
use cloudtty.Cluster.Monad.{World, ◌>>=◌}
use cloudtty.Cluster.Monad.Success.{bind-inv, pure-same}
use cloudtty.Controller.Services.{create_route_rule}
use cloudtty.Controller.Startup.{startup_worker_for}
use cloudtty.Controller.Sync.{
  Controller, StatusTry, status_body, store_status, store_read, update_cloudshell_status, with_ttl,
  schedule_time, start,
}

module _ (E : Env) where
  -- The shell, or what the lister gives for the name of such a shell.
  pub data IsCurrent (shell : CloudShell) : CloudShell → Type 0 where
    given : IsCurrent shell shell
    read :
        {p q : CloudShell} {s s' : E.State}
        → IsCurrent shell p
        → E.lister_shell p.namespace p.name s ≡ (ok q, s')
        → IsCurrent shell q

  -- The server has accepted this status, and no call has come after it.
  abbrev pub IsWritten : CloudShellStatus → CloudShell → E.State → Type 0
  IsWritten status shell s' =
      (p : CloudShell) × IsCurrent shell p
      × (s : E.State) × (E.update_status (record p { status = status })
            (E.write_shell (record p { status = status }) s)
          ≡ (ok tt, s'))

  -- Of the variables of `UpdateCloudshellStatus`.
  abbrev Holds : CloudShellStatus → CloudShell → Option CloudShell → Type 0
  Holds status shell none = Unit {0}
  Holds status shell (some q) =
      (p : CloudShell) × IsCurrent shell p × (q ≡ record p { status = status })

  abbrev Written : CloudShellStatus → CloudShell → Result (Unit {0}) × StatusTry E → Type 0
  Written status shell (ok _, (_, w)) = IsWritten status shell w.state
  Written status shell (err _, _) = Unit {0}

  abbrev Try : CloudShellStatus → CloudShell → StatusTry E → Type 0
  Try status shell ((_, held), _) = Holds status shell held

  answered-Written :
      (status : CloudShellStatus) (shell p : CloudShell) (w : World E)
      (u : Result (Unit {0}) × E.State)
      → IsCurrent shell p
      → E.update_status
          (record p { status = status })
          (E.write_shell (record p { status = status }) w.state)
        ≡ u
      → Written status shell
          (u.0, ((false, some (record p { status = status })), record w { state = u.1 }))
  answered-Written status shell p w (ok _, s) current e = (p, current, w.state, e)
  answered-Written status shell p w (err _, s) current e = tt

  Steps : CloudShellStatus → CloudShell → Result (Unit {0}) × StatusTry E → Type 0
  Steps status shell u = Written status shell u × (u.0 ≡ err conflict → Try status shell u.1)

  store_status-Steps :
      (status : CloudShellStatus) (shell p : CloudShell) (w : World E)
      → IsCurrent shell p
      → Steps status shell (store_status E status p w)
  unfolding store_status Steps
  store_status-Steps status shell p w current =
      (answered-Written status shell p w _ current refl, λ e. (p, current, refl))

  store_read-Steps :
      (status : CloudShellStatus) (shell p : CloudShell) (w : World E)
      (u : Result CloudShell × E.State)
      → IsCurrent shell p
      → E.lister_shell p.namespace p.name w.state ≡ u
      → Steps status shell (store_read E status (u.0, record w { state = u.1 }))
  unfolding store_read Steps
  store_read-Steps status shell p w (ok q, s) current e =
      store_status-Steps status shell q (record w { state = s }) (read current e)
  store_read-Steps status shell p w (err _, s) current e = (tt, λ c. tt)

  status_body-Steps :
      (status : CloudShellStatus) (shell : CloudShell) (first : Bool) (held : Option CloudShell)
      (w : World E)
      → Holds status shell held
      → Steps status shell (status_body E status ((first, held), w))
  unfolding status_body store_status Steps ◌>>=◌
  status_body-Steps status shell first none w h = (tt, λ c. tt)
  status_body-Steps status shell true (some q) w (p, current, same) =
      rw same (store_status-Steps status shell p w current)
  status_body-Steps status shell false (some q) w (p, current, same) =
      rw same (store_read-Steps status shell p w _ current refl)

  Written-IsWritten :
      (status : CloudShellStatus) (shell : CloudShell) (w' : World E)
      (u : Result (Unit {0}) × StatusTry E)
      → Written status shell u
      → ◌≡◌ {A = Result (Unit {0}) × World E} (u.0, u.1.1) (ok tt, w')
      → IsWritten status shell w'.state
  Written-IsWritten status shell w' (ok _, (v, w)) h e =
      subst (λ (t : World E). IsWritten status shell t.state) (ap (λ x. x.1) e) h
  Written-IsWritten status shell w' (err _, (v, w)) h e = cc

  -- A status that is written without an error has been accepted by the server as its last call.
  status-IsWritten :
      RetryIsLawful E
      → (shell : CloudShell) (before : CloudShellStatus) (phase : String) (w w' : World E)
      → update_cloudshell_status E (record shell { status = before }) phase w ≡ (ok tt, w')
      → IsWritten (record before { phase = phase }) shell w'.state
  unfolding update_cloudshell_status Steps
  status-IsWritten L shell before phase w w' h =
      let status : CloudShellStatus = record before { phase = phase } in
      Written-IsWritten status shell w' _
        (L.retry-last default_backoff (StatusTry E) (status_body E status) (Try status shell)
          (Written status shell)
          (λ ((first, held), v) t. status_body-Steps status shell first held v t)
          ((true, some (record shell { status = status })), w) (shell, given, refl))
        h

  -- The time that is stored as that of the first start.
  abbrev pub IsFirst : Option ℕ → ℕ → ℕ → Type 0
  IsFirst (some earlier) now time = time ≡ earlier
  IsFirst none now time = time ≡ now

  -- The URL of the rule, with the time to live if there is one.
  abbrev pub IsAccess : String → Option ℤ → String → Type 0
  IsAccess url none access = access ≡ url
  IsAccess url (some ttl) access = access ≡ url <> ("?ttl=" <> show_int ttl)

  abbrev pub ready_status : CloudShell → String → Option ℕ → CloudShellStatus
  ready_status started access time = record (started.status) {
    phase = "Ready";
    access_url = access;
    last_schedule_time = time;
  }

  module _ (c : Controller) where
    -- The shell is served by the worker: its route is made, its terminal is started in the pod, and
    -- the server has then accepted its new status.
    pub record IsStarted (shell : CloudShell) (worker : Pod) (v w' : World E) : Type 0 where
      pub url : String
      pub access : String
      pub started : CloudShell
      pub routed : World E
      pub served : World E
      pub time : ℕ
      pub routes : create_route_rule E shell worker v ≡ (ok url, routed)
      pub starts_up :
          startup_worker_for E c.ttyd_service_buffer_size c.ttyd_ping_interval shell routed
          ≡ (ok started, served)
      pub is_access : IsAccess url started.spec.ttl_seconds_after_started access
      pub is_first : IsFirst started.status.last_schedule_time (E.now served.state).0 time
      pub is_written : IsWritten (ready_status started access (some time)) started w'.state

    with_ttl-IsAccess : (url : String) (ttl : Option ℤ) → IsAccess url ttl (with_ttl url ttl)
    with_ttl-IsAccess url none = refl
    with_ttl-IsAccess url (some ttl) = refl

    schedule_time-IsFirst :
        (earlier stored : Option ℕ) (v w : World E)
        → schedule_time E c earlier v ≡ (ok stored, w)
        → (time : ℕ) × (stored ≡ some time) × IsFirst earlier (E.now v.state).0 time
    unfolding schedule_time ◌>>=◌
    schedule_time-IsFirst (some t) stored v w h = (t, ground arith, refl)
    schedule_time-IsFirst none stored v w h = ((E.now v.state).0, ground arith, refl)

    abbrev access : CloudShell → String → String
    access started url = with_ttl url started.spec.ttl_seconds_after_started

    pub start-IsStarted :
        RetryIsLawful E
        → (t r : Option ℤ) (shell : CloudShell) (worker : Pod) (v w' : World E)
        → start E c t (some (shell, worker)) v ≡ (ok r, w')
        → (r ≡ t) × IsStarted shell worker v w'
    unfolding start
    start-IsStarted L t r shell worker v w' h = bind-inv _ _ h (λ url v1 routes h1.
        bind-inv _ _ h1 (λ started v2 starts_up h2. bind-inv _ _ h2 (λ stored v3 scheduled h3.
          bind-inv _ _ h3 (λ done v4 writes h4.
            let (time, same, first) = schedule_time-IsFirst _ stored v2 v3 scheduled in
            (
              sym (pure-same t r v4 w' h4).0,
              record {
                url = url;
                access = access started url;
                started = started;
                routed = v1;
                served = v2;
                time = time;
                routes = routes;
                starts_up = starts_up;
                is_access = with_ttl-IsAccess url started.spec.ttl_seconds_after_started;
                is_first = first;
                is_written =
                    subst
                      (λ (x : World E).
                        IsWritten (ready_status started (access started url) (some time)) started
                          x.state)
                      (pure-same t r v4 w' h4).1
                      (subst
                        (λ (d : Option ℕ).
                          IsWritten (ready_status started (access started url) d) started v4.state)
                        same (status-IsWritten L started _ "Ready" v3 v4 writes));
              },
            )))))
