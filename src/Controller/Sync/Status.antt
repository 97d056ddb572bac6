-- ===== src/Controller/Sync/Status.antt =====
-- What `UpdateCloudshellStatus` stores, and when it fails.
use cloudtty.Base.{String, true, false, some, ◌≡◌, ◌≢◌, refl, ap, ◌∙◌, sym}
use cloudtty.Base.Result.{conflict, not_found, Result, ok, err}
use cloudtty.Objects.{CloudShell, CloudShellStatus}
use cloudtty.Cluster.{Env, RetryIsLawful, default_backoff}
use cloudtty.Cluster.Monad.{World, ◌>>=◌}
use cloudtty.Controller.Sync.{
  StatusTry, status_body, store_status, store_read, update_cloudshell_status,
}

module _ (E : Env) where
  -- The shell with the phase.
  abbrev pub with_phase : CloudShell → String → CloudShell
  with_phase shell phase = record shell { status = record (shell.status) { phase = phase } }

  -- What `update_cloudshell_status` returns of the last try.
  abbrev outcome : Result (Unit {0}) × StatusTry E → Result (Unit {0}) × World E
  outcome (r, (_, w)) = (r, w)

  first_try :
      (status : CloudShellStatus) (shell : CloudShell) (r : Result (Unit {0})) (w : World E)
      (s : E.State)
      → E.update_status
          (record shell { status = status })
          (E.write_shell (record shell { status = status }) w.state)
        ≡ (r, s)
      → store_status E status shell w
        ≡ (r, ((false, some (record shell { status = status })), record w { state = s }))
  unfolding store_status
  first_try status shell r w s e = rw e refl

  second_try :
      (status : CloudShellStatus) (shell : CloudShell) (r : Result CloudShell) (w : World E)
      (s : E.State)
      → E.lister_shell shell.namespace shell.name w.state ≡ (r, s)
      → status_body E status ((false, some shell), w)
        ≡ store_read E status (r, record w { state = s })
  unfolding status_body ◌>>=◌
  second_try status shell r w s e = rw e refl

  again :
      RetryIsLawful E
      → (status : CloudShellStatus) (shell : CloudShell) (w : World E) (t : StatusTry E)
        (u : Result (Unit {0}) × StatusTry E)
      → status_body E status ((true, some shell), w) ≡ (err conflict, t)
      → status_body E status t ≡ u
      → u.0 ≢ err conflict
      → E.retry default_backoff (StatusTry E) (status_body E status) ((true, some shell), w) ≡ u
  again L status shell w t u first second h =
      L.retry-again default_backoff (StatusTry E) (status_body E status) ((true, some shell), w)
        (ap (λ x. x.0) first) (λ e. h (ap (λ x. x.0) (sym then_second) ∙ e))
      ∙ then_second
    where
      then_second : status_body E status (status_body E status ((true, some shell), w)).1 ≡ u
      then_second = ap (λ x. status_body E status x.1) first ∙ second

  -- If the first write of a status conflicts, the shell is read again, and the same status is
  -- written to what was read; the update succeeds if that write does. `RetryOnConflict` is assumed
  -- to behave as documented.
  pub update_cloudshell_status_again :
      RetryIsLawful E
      → (shell fresh : CloudShell) (phase : String) (w : World E) (s s' s'' : E.State)
      → E.update_status (with_phase shell phase) (E.write_shell (with_phase shell phase) w.state)
        ≡ (err conflict, s)
      → E.lister_shell shell.namespace shell.name s ≡ (ok fresh, s')
      → E.update_status
          (record fresh { status = (with_phase shell phase).status })
          (E.write_shell (record fresh { status = (with_phase shell phase).status }) s')
        ≡ (ok tt, s'')
      → update_cloudshell_status E shell phase w ≡ (ok tt, record w { state = s'' })
  unfolding update_cloudshell_status status_body store_read store_status
  update_cloudshell_status_again L shell fresh phase w s s' s'' first read second =
      let status = (with_phase shell phase).status in
      ap outcome (
        again L status (with_phase shell phase) w _ _
          (first_try status shell (err conflict) w s first)
          (second_try status (with_phase shell phase) (ok fresh) (record w { state = s }) s' read
            ∙ first_try status fresh (ok tt) (record w { state = s' }) s'' second)
          (λ h. cc))

  -- If the first write of a status conflicts and the shell is gone when it is read again, the
  -- update fails with NotFound. `RetryOnConflict` is assumed to behave as documented.
  pub update_cloudshell_status_gone :
      RetryIsLawful E
      → (shell : CloudShell) (phase : String) (w : World E) (s s' : E.State)
      → E.update_status (with_phase shell phase) (E.write_shell (with_phase shell phase) w.state)
        ≡ (err conflict, s)
      → E.lister_shell shell.namespace shell.name s ≡ (err not_found, s')
      → update_cloudshell_status E shell phase w ≡ (err not_found, record w { state = s' })
  unfolding update_cloudshell_status status_body store_read store_status
  update_cloudshell_status_gone L shell phase w s s' first read =
      let status = (with_phase shell phase).status in
      ap outcome (
        again L status (with_phase shell phase) w _ _
          (first_try status shell (err conflict) w s first)
          (second_try status (with_phase shell phase) (err not_found) (record w { state = s }) s'
            read)
          (λ h. cc))
