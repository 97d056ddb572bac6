-- ===== src/Command.antt =====
-- cmd/app/options: the options of the command, and `Validate` of validate.go.
pub mod Config
pub mod Manager
pub mod Starting
pub mod Wiring
pub mod Clients
use cloudtty.Base.{
  ℕ, String, Bool, true, false, List, [], ◌∷◌, ◌++◌, if◌then◌else◌, ◌≡◌, ◌↔◌, arith,
}
use cloudtty.Base.Dict.{Dict}
use cloudtty.Base.Int.{ℤ, pos, ltb_ℤ}
use cloudtty.Base.Result.{Result, ok, err}
use cloudtty.Resources.{Setting}

-- What the code reads of `componentbaseconfig.LeaderElectionConfiguration`; durations in nanoseconds.
pub record LeaderElection : Type 0 where
  pub leader_elect : Bool
  pub resource_lock : String
  pub resource_namespace : String
  pub resource_name : String
  pub lease_duration : ℕ
  pub renew_deadline : ℕ
  pub retry_period : ℕ

-- `componentbaseconfig.ClientConnectionConfiguration`. The float32 `qps` is only passed on.
pub record ClientConnection : Type 0 where
  pub accept_content_types : String
  pub content_type : String
  pub qps : ℕ
  pub burst : ℤ

-- The logging options are left out.
pub record Options : Type 0 where
  pub leader_election : LeaderElection
  pub client_connection : ClientConnection
  pub master : String
  pub kubeconfig : String
  pub core_worker_limit : ℤ
  pub max_worker_limit : ℤ
  pub cloudshell_image : String
  pub node_selector : Dict
  pub resources : Setting
  pub enable_pprof : Bool
  pub profiling_bind_address : String

-- `field.Invalid`, of a number or a text: the field, its value and what is wrong.
pub data Invalid : Type 0 where
  invalid_number : String → ℤ → String → Invalid
  invalid_text : String → String → String → Invalid

unfoldable pub negative_limit : String → ℤ → ℤ → String → List Invalid
negative_limit name limit reported message =
    if ltb_ℤ limit (pos 0) then invalid_number name reported message ∷ [] else []

-- `net.SplitHostPort` is given.
module _ (split_host_port : String → Result (String × String)) where
  unfoldable pub invalid_address : String → Result (String × String) → List Invalid
  invalid_address address (ok _) = []
  invalid_address address (err e) =
      invalid_text "Options.ProfilingBindAddress" address
        "profiling-bind-address must be a valid host:port when --enable-pprof is set"
      ∷ []

  -- A negative core limit is reported with the maximum's value.
  unfoldable pub validate : Options → List Invalid
  validate o =
      negative_limit "Options.CoreWorkerLimit" o.core_worker_limit o.max_worker_limit
        "core-worker-limit must be greater than or equals 0"
      ++ negative_limit "Options.MaxWorkerLimit" o.max_worker_limit o.max_worker_limit
          "max-worker-limit must be greater than or equals 0"
      ++ (if o.enable_pprof
          then invalid_address o.profiling_bind_address (split_host_port o.profiling_bind_address)
          else [])

  abbrev pub IsOk : Result (String × String) → Type 0
  IsOk (ok _) = Unit {0}
  IsOk (err e) = ⊥

  -- The options are valid exactly if both limits are at least 0, and the profiling address can be
  -- split where profiling is on.
  pub validate_iff :
      (o : Options)
      → (validate o ≡ []) ↔ (
          (ltb_ℤ o.core_worker_limit (pos 0) ≡ false)
          × (ltb_ℤ o.max_worker_limit (pos 0) ≡ false)
          × (o.enable_pprof ≡ true → IsOk (split_host_port o.profiling_bind_address)))
  unfolding validate negative_limit invalid_address
  validate_iff o = ground arith
