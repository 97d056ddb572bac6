-- ===== src/Controller/Startup.antt =====
-- `StartupWorkerFor`, `StartupWorker`, `ResetWorker`, `execCommand` and `GenerateKubeconfigInCluster` of
-- pkg/controllers/cloudshell_controller.go.
pub mod Environment
use cloudtty.Base.{
  String, ◌<>◌, Bool, true, false, ◌||◌, List, [], ◌∷◌, Option, none, some, if◌then◌else◌, ◌==◌,
}
use cloudtty.Base.Dict.{Dict, lookup}
use cloudtty.Base.Result.{failed, Result, ok, err}
use cloudtty.Objects.{CloudShell, CloudShellSpec}
use cloudtty.Text.{is_empty, contains_char, join}
use cloudtty.Cluster.{Env}
use cloudtty.Manifests.{kubeconfig_tmpl_v1, kubeconfig_data}
use cloudtty.Cluster.Monad.{M, ◌>>=◌, ◌>>◌, pure, call, save_shell, from_result}
use cloudtty.WorkerPool.Creation.{parse_template}
use cloudtty.WorkerPool.Scaling.{text_of}
use cloudtty.Controller.Labels.{pod_label}
use cloudtty.Controller.RouteLists.{chain}

-- The variables of `StartupWorker` that the environment of the spec sets.
pub record Settings : Type 0 where
  pub pod_name : String
  pub namespace : String
  pub container : String
  pub server_buffer_size : String
  pub ping_interval : String
  pub credential : String
  pub ps1 : String

unfoldable pub set_setting : String → String → Settings → Settings
set_setting name value s =
    if name == "POD_NAME"
    then record s { pod_name = value }
    else if name == "POD_NAMESPACE"
    then record s { namespace = value }
    else if name == "CONTAINER"
    then record s { container = value }
    else if name == "TTYD_SERVER_BUFFER_SIZE"
    then record s { server_buffer_size = value }
    else if name == "TTYD_PING_INTERVAL"
    then record s { ping_interval = value }
    else if name == "TTYD_CREDENTIAL"
    then record s { credential = value }
    else if name == "PS1"
    then record s { ps1 = value }
    else s

-- The loop over the environment.
unfoldable pub read_env : List (String × String) → Settings → Settings
read_env [] s = s
read_env ((name, value) ∷ env) s = read_env env (set_setting name value s)

-- The settings before the loop, from the controller's two own.
abbrev pub initial_settings : String → String → Settings
initial_settings buffer_size ping_interval = record {
  pod_name = "";
  namespace = "";
  container = "";
  server_buffer_size = buffer_size;
  ping_interval = ping_interval;
  credential = "";
  ps1 = "";
}

abbrev pub has_bar : String → Bool
unfolding contains_char
has_bar s = contains_char b'|' s

-- The loop over the client options, in the order in which the map gives them.
unfoldable pub option_texts : Dict → Result (List String)
option_texts [] = ok []
option_texts ((k, v) ∷ options) =
    let rest = option_texts options in
    if has_bar k || has_bar v
    then err (failed "clientOptions key or value contains delimiter(|)")
    else chain rest (λ texts. ok ((k <> ("=" <> v)) ∷ texts))

unfoldable pub client_options : Option Dict → Result String
client_options none = ok ""
client_options (some options) = chain (option_texts options) (λ texts. ok (join "|" texts))

-- `fmt.Sprint` of a bool.
abbrev pub show_bool : Bool → String
show_bool true = "true"
show_bool false = "false"

unfoldable pub ttyd_command : CloudShellSpec → String → Settings → String → List String
ttyd_command spec kubeconfig s options =
    "/usr/lib/ttyd/startup.sh"
    ∷ kubeconfig
    ∷ show_bool spec.once
    ∷ show_bool spec.url_arg
    ∷ spec.command_action
    ∷ s.pod_name
    ∷ s.namespace
    ∷ s.container
    ∷ s.ps1
    ∷ s.server_buffer_size
    ∷ s.ping_interval
    ∷ options
    ∷ s.credential
    ∷ []

module _ (E : Env) where
  -- The client for the command and the command itself may fail.
  unfoldable pub exec_command : CloudShell → List String → M E (Unit {0})
  exec_command shell command = call (E.exec shell.namespace (pod_label shell) command)

  unfoldable pub reset_worker : CloudShell → M E (Unit {0})
  reset_worker shell = exec_command shell ("/usr/lib/ttyd/reset.sh" ∷ [])

  unfoldable pub startup_worker : String → String → CloudShell → String → M E (Unit {0})
  startup_worker buffer_size ping_interval shell kubeconfig = do
    let settings = read_env shell.spec.env (initial_settings buffer_size ping_interval)
    options ← from_result (client_options shell.spec.ttyd_client_options)
    exec_command shell (ttyd_command shell.spec kubeconfig settings options)

  unfoldable pub kubeconfig_from : String → Result String → Result String → Result String
  kubeconfig_from server (err e) ca = err e
  kubeconfig_from server (ok token) (err e) = err e
  kubeconfig_from server (ok token) (ok ca) =
      parse_template E kubeconfig_tmpl_v1 (kubeconfig_data (E.encode_base64 ca) server token)

  unfoldable pub generate_kubeconfig_in_cluster : Result String
  generate_kubeconfig_in_cluster =
      let host = E.getenv "KUBERNETES_SERVICE_HOST" in
      let port = E.getenv "KUBERNETES_SERVICE_PORT" in
      if is_empty host || is_empty port
      then err (
          failed
            "unable to load in-cluster configuration, KUBERNETES_SERVICE_HOST and KUBERNETES_SERVICE_PORT must be defined")
      else kubeconfig_from ("https://" <> E.join_host_port host port)
          (E.read_file "/var/run/secrets/kubernetes.io/serviceaccount/token")
          (E.read_file "/var/run/secrets/kubernetes.io/serviceaccount/ca.crt")

  -- The shell and its kubeconfig, if its spec names no secret: a secret is made for it.
  unfoldable pub make_secret : CloudShell → M E (CloudShell × String)
  make_secret shell = do
    kubeconfig ← from_result generate_kubeconfig_in_cluster
    secret ← from_result (
        E.set_secret_reference shell.name record {
          name = "";
          generate_name = "cloudshell-" <> (shell.name <> "-");
          namespace = shell.namespace;
          contents = ("config", kubeconfig) ∷ [];
        })
    created ← call (E.secrets.create secret)
    let spec = record (shell.spec) { secret_ref = some created.name }
    updated ← save_shell (record shell { spec = spec })
    pure (updated, kubeconfig)

  unfoldable pub config_data_name : String
  config_data_name =
      let name = E.getenv "KUBECONFIG_SECRET_DATA_NAME" in if name == "" then "config" else name

  unfoldable pub read_secret : CloudShell → String → M E (CloudShell × String)
  read_secret shell name = do
    secret ← call (E.secrets.get shell.namespace name)
    pure (shell, text_of (lookup config_data_name secret.contents))

  unfoldable pub kubeconfig_of : CloudShell → Option String → M E (CloudShell × String)
  kubeconfig_of shell none = make_secret shell
  kubeconfig_of shell (some name) = read_secret shell name

  -- The shell comes back as it is after its update.
  unfoldable pub startup_worker_for : String → String → CloudShell → M E CloudShell
  startup_worker_for buffer_size ping_interval shell = do
    (updated, kubeconfig) ← kubeconfig_of shell shell.spec.secret_ref
    startup_worker buffer_size ping_interval updated kubeconfig
    pure updated
