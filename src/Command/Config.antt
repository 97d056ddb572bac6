-- ===== src/Command/Config.antt =====
-- `NewOptions`, `Flags` and `Config` of cmd/app/options/option.go, with cmd/app/config/config.go. The
-- event recorder is left out.
use cloudtty.Base.{ℕ, String, Bool, false, List, [], ◌∷◌, if◌then◌else◌}
use cloudtty.Base.Dict.{Dict}
use cloudtty.Base.Int.{ℤ, pos}
use cloudtty.Base.Result.{failed, Result, ok, err}
use cloudtty.Resources.{Setting}
use cloudtty.Text.{is_empty}
use cloudtty.Command.{LeaderElection, ClientConnection, Options, Invalid, validate}

abbrev pub namespace_cloudtty_system : String
namespace_cloudtty_system = "cloudtty-system"

abbrev pub cloudshell_controller_manager_user_agent : String
cloudshell_controller_manager_user_agent = "cloudshell-controller-manager"

-- What the code writes of client-go's `rest.Config`.
pub record Rest : Type 0 where
  pub host : String
  pub user_agent : String
  pub accept_content_types : String
  pub content_type : String
  pub qps : ℕ
  pub burst : ℤ

-- The libraries that make a configuration and its clients.
pub record Libraries : Type 1 where
  pub KubeClient : Type 0
  pub RuntimeClient : Type 0
  pub CloudShellClient : Type 0
  pub split_host_port : String → Result (String × String)
  pub aggregate : List Invalid → String
  pub get_config : Result Rest
  pub build_config_from_flags : String → String → Result Rest
  -- what `rest.AddUserAgent` writes
  pub full_user_agent : String → String
  pub new_kube_client : Rest → Result KubeClient
  pub new_runtime_client : Rest → Result RuntimeClient
  pub new_cloudshell_client : Rest → Result CloudShellClient
  -- the recommended defaults of component-base, converted
  pub recommended_leader_election : Result LeaderElection
  pub recommended_client_connection : Result ClientConnection

-- `config.Config`
pub record Config (L : Libraries) : Type 0 where
  pub kube_client : L.KubeClient
  pub cloudshell_client : L.CloudShellClient
  pub client : L.RuntimeClient
  pub kubeconfig : Rest
  pub core_worker_limit : ℤ
  pub max_worker_limit : ℤ
  pub cloudshell_image : String
  pub node_selector : Dict
  pub resources : Setting
  pub enable_pprof : Bool
  pub profiling_bind_address : String
  pub leader_election : LeaderElection

module _ (L : Libraries) where
  unfoldable pub and_then : {A B : Type 0} → Result A → (A → Result B) → Result B
  and_then (ok a) f = f a
  and_then (err e) f = err e

  -- The options before the flags: the other fields are Go's zero values.
  unfoldable pub new_options : Result Options
  unfolding and_then
  new_options = and_then L.recommended_leader_election λ election.
      and_then L.recommended_client_connection λ connection. ok (record {
        leader_election = record election {
          resource_name = "cloudshell-controller-manager";
          resource_namespace = namespace_cloudtty_system;
          resource_lock = "leases";
        };
        client_connection = record connection { content_type = "application/json" };
        master = "";
        kubeconfig = "";
        core_worker_limit = pos 0;
        max_worker_limit = pos 0;
        cloudshell_image = "";
        node_selector = [];
        resources = record { limits = []; requests = [] };
        enable_pprof = false;
        profiling_bind_address = "";
      })

  -- A flag that is not given leaves the default that `Flags` writes.
  unfoldable pub flags : Options → Options
  flags o = record o {
    core_worker_limit = pos 5;
    max_worker_limit = pos 10;
    cloudshell_image = "";
    enable_pprof = false;
    profiling_bind_address = ":6060";
  }

  unfoldable pub rest_config : Options → Result Rest
  rest_config o =
      if is_empty o.kubeconfig
      then L.get_config
      else L.build_config_from_flags o.master o.kubeconfig

  -- The clients are made from one `rest.Config`, into which `AddUserAgent` writes.
  unfoldable pub with_connection : Options → Rest → Rest
  with_connection o kubeconfig = record kubeconfig {
    accept_content_types = o.client_connection.accept_content_types;
    content_type = o.client_connection.content_type;
    qps = o.client_connection.qps;
    burst = o.client_connection.burst;
    user_agent = L.full_user_agent cloudshell_controller_manager_user_agent;
  }

  unfoldable pub with_clients : Options → Rest → Result (Config L)
  unfolding and_then
  with_clients o kubeconfig = and_then (L.new_kube_client kubeconfig) λ client.
      and_then (L.new_runtime_client kubeconfig) λ runtime_client.
        and_then (L.new_cloudshell_client kubeconfig) λ cloudshell_client. ok (record {
          kube_client = client;
          cloudshell_client = cloudshell_client;
          client = runtime_client;
          kubeconfig = kubeconfig;
          core_worker_limit = o.core_worker_limit;
          max_worker_limit = o.max_worker_limit;
          cloudshell_image = o.cloudshell_image;
          node_selector = o.node_selector;
          resources = o.resources;
          enable_pprof = o.enable_pprof;
          profiling_bind_address = o.profiling_bind_address;
          leader_election = o.leader_election;
        })

  unfoldable pub config_of : List Invalid → Options → Result (Config L)
  unfolding and_then rest_config with_connection with_clients
  config_of (e ∷ es) o = err (failed (L.aggregate (e ∷ es)))
  config_of [] o =
      and_then (rest_config o) λ kubeconfig. with_clients o (with_connection o kubeconfig)

  unfoldable pub config : Options → Result (Config L)
  unfolding config_of
  config o = config_of (validate L.split_host_port o) o
