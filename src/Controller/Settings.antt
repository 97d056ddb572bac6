-- ===== src/Controller/Settings.antt =====
-- The settings that `Run` of pkg/controllers/cloudshell_controller.go reads before its loop, with
-- `GetCurrentNSOrDefault` of pkg/utils/util.go.
use cloudtty.Base.{String, false, List, [], ◌∷◌, if◌then◌else◌, ◌≡◌, refl, Bool-cases, inl, inr}
use cloudtty.Base.Dict.{Dict, lookup}
use cloudtty.Base.Result.{Result, ok, err}
use cloudtty.Text.{is_empty}
use cloudtty.Cluster.{Env}
use cloudtty.Cluster.Monad.{M, ◌>>=◌, pure, attempt, call}
use cloudtty.WorkerPool.Scaling.{text_of}
use cloudtty.Controller.Sync.{Controller}

-- `labels` of the config map that is read.
abbrev pub cloudshell_config_map_label : String
cloudshell_config_map_label = "cloudtty.io/cloudshell-config"

-- A text that is not empty, or the default.
abbrev pub or_default : String → String
or_default ns = if is_empty ns then "default" else ns

module _ (E : Env) where
  unfoldable pub ns_of_file : Result String → String
  ns_of_file (ok contents) = or_default (E.trim_space contents)
  ns_of_file (err e) = "default"

  unfoldable pub get_current_ns_or_default : String
  get_current_ns_or_default =
      let ns = E.getenv "POD_NAMESPACE" in
      if is_empty ns
      then ns_of_file (E.read_file "/var/run/secrets/kubernetes.io/serviceaccount/namespace")
      else ns

  -- The first config map's data; a missing key gives the empty text.
  unfoldable pub controller_settings : Controller → Result (List Dict) → Controller
  controller_settings c (ok (config ∷ _)) = record c {
    ttyd_service_buffer_size = text_of (lookup "TTYD_SERVER_BUFFER_SIZE" config);
    ttyd_ping_interval = text_of (lookup "TTYD_PING_INTERVAL" config);
  }
  controller_settings c (ok []) = c
  controller_settings c (err e) = c

  unfoldable pub load_ttyd_config : Controller → M E Controller
  load_ttyd_config c = do
    configs ←
        attempt (call (E.list_config_maps get_current_ns_or_default cloudshell_config_map_label))
    pure (controller_settings c configs)

  or_default_set : (ns : String) → is_empty (or_default ns) ≡ false
  or_default_set ns = elim (Bool-cases (is_empty ns)) [ inl e ↦ rw e refl | inr e ↦ rw (e) e ]

  ns_of_file_set : (r : Result String) → is_empty (ns_of_file r) ≡ false
  unfolding ns_of_file
  ns_of_file_set (ok contents) = or_default_set (E.trim_space contents)
  ns_of_file_set (err e) = refl

  -- The current namespace is never the empty text, which would list config maps of all namespaces, and
  -- it is the environment's wherever that is set.
  pub get_current_ns_or_default_set :
      (is_empty get_current_ns_or_default ≡ false)
      × (is_empty (E.getenv "POD_NAMESPACE") ≡ false
          → get_current_ns_or_default ≡ E.getenv "POD_NAMESPACE")
  unfolding get_current_ns_or_default
  get_current_ns_or_default_set = (
    elim (Bool-cases (is_empty (E.getenv "POD_NAMESPACE"))) [
      | inl e ↦ rw e (ns_of_file_set _)
      | inr e ↦ rw (e) e
    ],
    λ e. rw e refl,
  )
