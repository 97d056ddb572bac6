-- ===== src/Controller/Defaults.antt =====
-- `ensureCloudShell` of pkg/controllers/cloudshell_controller.go, with the defaults of
-- pkg/apis/cloudshell/v1alpha1/defaults.go.
pub mod Stable
pub mod Failing
use cloudtty.Base.{String, not, ◌||◌, if◌then◌else◌}
use cloudtty.Objects.{CloudShell, CloudShellSpec}
use cloudtty.Text.{is_empty}
use cloudtty.Cluster.{Env}
use cloudtty.Cluster.Monad.{M, pure, save_shell}

abbrev pub default_ttyd_image : String
default_ttyd_image = "ghcr.io/cloudtty/cloudshell:v0.8.10"

abbrev pub cloudshell_controller_finalizer : String
cloudshell_controller_finalizer = "cloudtty.io/cloudshell-controller"

unfoldable pub set_defaults_spec : CloudShellSpec → CloudShellSpec
set_defaults_spec spec = record spec {
  command_action = if is_empty spec.command_action then "bash" else spec.command_action;
  expose_mode = if is_empty spec.expose_mode then "NodePort" else spec.expose_mode;
  image = if is_empty spec.image then default_ttyd_image else spec.image;
}

unfoldable pub set_defaults_cloud_shell : CloudShell → CloudShell
set_defaults_cloud_shell shell = record shell { spec = set_defaults_spec shell.spec }

-- The spec with the operator's image where it has none.
unfoldable pub set_image : String → CloudShellSpec → CloudShellSpec
set_image image spec = record spec { image = if is_empty spec.image then image else spec.image }

module _ (E : Env) where
  -- `ctrlutil.AddFinalizer(cloudshell, CloudshellControllerFinalizer)`
  unfoldable pub with_finalizer : CloudShell → CloudShell
  with_finalizer shell = record shell {
    finalizers = (E.add_finalizer shell.finalizers cloudshell_controller_finalizer).0;
  }

  unfoldable pub ensured : String → CloudShell → CloudShell
  ensured image shell =
      set_defaults_cloud_shell (record (with_finalizer shell) { spec = set_image image shell.spec })

  -- The shell as the code goes on with it: the server's answer where it was updated. Otherwise the
  -- finalizers and the spec that are written are those that were there.
  unfoldable pub ensure_cloud_shell : String → CloudShell → M E CloudShell
  ensure_cloud_shell image shell =
      if (E.add_finalizer shell.finalizers cloudshell_controller_finalizer).1
        || not (E.same_spec (ensured image shell).spec shell.spec)
      then save_shell (ensured image shell)
      else pure (ensured image shell)
