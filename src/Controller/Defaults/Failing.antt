-- ===== src/Controller/Defaults/Failing.antt =====
-- A shell whose defaults cannot be stored: what `ensureCloudShell` leaves in the informer's cache.
use cloudtty.Base.{String, true, ◌≡◌, refl}
use cloudtty.Base.Result.{Error, ok, err}
use cloudtty.Objects.{CloudShell, CloudShellSpec}
use cloudtty.Cluster.{Env, FinalizersAreLawful}
use cloudtty.Cluster.Monad.{World, ◌>>=◌, save_shell}
use cloudtty.Controller.Defaults.{
  cloudshell_controller_finalizer, set_defaults_cloud_shell, with_finalizer, ensured,
  ensure_cloud_shell,
}
use cloudtty.Controller.Defaults.Stable.{ensure_cloud_shell_twice}

-- The lister hands out the objects of the informer's cache: while the cache holds a shell, what is
-- written through its pointer is read back, and an update that fails leaves the cache as it is.
pub record ShellCacheIsShared (E : Env) : Type 0 where
  pub reads-write :
      (older shell : CloudShell) (s : E.State)
      → (E.lister_shell shell.namespace shell.name s).0 ≡ ok older
      → (E.lister_shell shell.namespace shell.name (E.write_shell shell s)).0 ≡ ok shell
  pub reads-failed :
      (shell sent : CloudShell) (e : Error) (s s' : E.State)
      → (E.lister_shell shell.namespace shell.name s).0 ≡ ok shell
      → E.shells.update sent s ≡ (err e, s')
      → (E.lister_shell shell.namespace shell.name s').0 ≡ ok shell

module _ (E : Env) where
  pub save_shell-err :
      (shell : CloudShell) (e : Error) (w : World E) (s : E.State)
      → E.shells.update shell (E.write_shell shell w.state) ≡ (err e, s)
      → save_shell shell w ≡ (err e, record w { state = s })
  unfolding save_shell ◌>>=◌
  save_shell-err shell e w s h = rw h refl

  -- If `ensureCloudShell` adds the finalizer and the update fails, the reconcile gets the update's
  -- error; the informer's cache holds the shell with its finalizer and defaults, which the server never
  -- stored; and `ensureCloudShell` of what the cache holds succeeds and calls nobody, whatever the
  -- world, so that the finalizer is not stored then either. The cache is assumed to share its objects
  -- and to hold the shell, a finalizer to be added only where it is missing, and a spec to be deeply
  -- equal to itself.
  pub ensure_cloud_shell-failed :
      ShellCacheIsShared E
      → FinalizersAreLawful E
      → ((spec : CloudShellSpec) → E.same_spec spec spec ≡ true)
      → (image : String) (shell cached : CloudShell) (e : Error) (w v : World E) (s : E.State)
      → (E.add_finalizer shell.finalizers cloudshell_controller_finalizer).1 ≡ true
      → (E.lister_shell shell.namespace shell.name w.state).0 ≡ ok cached
      → E.shells.update (ensured E image shell) (E.write_shell (ensured E image shell) w.state)
        ≡ (err e, s)
      → (ensure_cloud_shell E image shell w ≡ (err e, record w { state = s }))
        × ((E.lister_shell shell.namespace shell.name s).0 ≡ ok (ensured E image shell))
        × (ensure_cloud_shell E image (ensured E image shell) v ≡ (ok (ensured E image shell), v))
  unfolding ensure_cloud_shell ensured set_defaults_cloud_shell with_finalizer
  ensure_cloud_shell-failed C L same image shell cached e w v s missing holds fails = (
    rw (missing, save_shell-err (ensured E image shell) e w s fails),
    C.reads-failed (ensured E image shell) (ensured E image shell) e _ s
        (C.reads-write cached (ensured E image shell) w.state holds) fails,
    ensure_cloud_shell_twice E L same image image shell v,
  )
