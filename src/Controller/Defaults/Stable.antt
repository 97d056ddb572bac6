-- ===== src/Controller/Defaults/Stable.antt =====
-- A shell that has its defaults and finalizer is left alone.
use cloudtty.Base.{
  String, true, false, if◌then◌else◌, ◌≡◌, refl, arith, contains, string_eq, eq_iff, Bool-cases,
  inl, inr,
}
use cloudtty.Base.Result.{ok}
use cloudtty.Objects.{CloudShell, CloudShellSpec}
use cloudtty.Text.{is_empty}
use cloudtty.Cluster.{Env, FinalizersAreLawful}
use cloudtty.Cluster.Monad.{World, ◌>>=◌}
use cloudtty.Controller.Defaults.{
  set_defaults_spec, set_defaults_cloud_shell, set_image, with_finalizer, ensured,
  ensure_cloud_shell, cloudshell_controller_finalizer,
}

abbrev pub default_of : String → String → String
default_of s d = if is_empty s then d else s

default_set : (s d : String) → is_empty d ≡ false → is_empty (default_of s d) ≡ false
default_set s d h = elim (Bool-cases (is_empty s)) [ inl e ↦ rw e h | inr e ↦ rw (e) e ]

-- The spec is as the defaults leave it.
abbrev pub IsDefaulted : CloudShellSpec → Type 0
IsDefaulted spec =
    (is_empty spec.command_action ≡ false)
    × (is_empty spec.expose_mode ≡ false)
    × (is_empty spec.image ≡ false)

set_defaults-IsDefaulted : (spec : CloudShellSpec) → IsDefaulted (set_defaults_spec spec)
unfolding set_defaults_spec
set_defaults-IsDefaulted spec = (
  default_set spec.command_action _ refl,
  default_set spec.expose_mode _ refl,
  default_set spec.image _ refl,
)

defaulted :
    (image : String) (spec : CloudShellSpec)
    → IsDefaulted spec
    → set_defaults_spec (set_image image spec) ≡ spec
unfolding set_defaults_spec set_image
defaulted image spec (a, b, c) = rw (a, b, c, c) refl

set_defaults_fixed :
    (image : String) (spec : CloudShellSpec)
    → set_defaults_spec (set_image image (set_defaults_spec spec)) ≡ set_defaults_spec spec
set_defaults_fixed image spec =
    defaulted image (set_defaults_spec spec) (set_defaults-IsDefaulted spec)

module _ (E : Env) where
  -- `ensureCloudShell` on a shell that it has already filled changes nothing and calls nobody, also
  -- with another image. A finalizer is assumed to be added only where it is missing, and a spec to
  -- be deeply equal to itself.
  pub ensure_cloud_shell_twice :
      FinalizersAreLawful E
      → ((spec : CloudShellSpec) → E.same_spec spec spec ≡ true)
      → (image other : String) (shell : CloudShell) (w : World E)
      → ensure_cloud_shell E other (ensured E image shell) w ≡ (ok (ensured E image shell), w)
  unfolding ensure_cloud_shell ensured set_defaults_cloud_shell with_finalizer ◌>>=◌
  ensure_cloud_shell_twice L same image other shell w =
      let there : contains (E.add_finalizer shell.finalizers cloudshell_controller_finalizer).0
            cloudshell_controller_finalizer
          ≡ true =
        ground (
          arith,
          L.contains-add shell.finalizers cloudshell_controller_finalizer
              cloudshell_controller_finalizer,
          eq_iff cloudshell_controller_finalizer cloudshell_controller_finalizer,
        ) in
      rw
        (
          set_defaults_fixed other (set_image image shell.spec),
          L.add-contained _ cloudshell_controller_finalizer there,
          same (set_defaults_spec (set_image image shell.spec)),
        )
        refl
