-- ===== src/Tests/Clients.antt =====
-- The theorems on the command's client of shells.
use cloudtty.Base.{◌≡◌, refl, ℕ, String, true, [], some}
use cloudtty.Base.Int.{ℤ, pos}
use cloudtty.Base.Result.{ok}
use cloudtty.Command.{validate, negative_limit, invalid_address}
use cloudtty.Command.Config.{Rest, Config, rest_config, with_connection, config}
use cloudtty.Command.Clients.{rest_of, generated, config-IsShared}
use cloudtty.Generated.Clientset.{
  RestConfig, Network, new_for_config, new_for_config_and_client, new_client, limited,
  set_config_defaults, with_user_agent,
}
use cloudtty.Generated.Clientset.Sharing.{IsShared}
use cloudtty.Tests.Commands.{rest, options, libraries, election}

-- A client is the configuration that it is made for.
abbrev network : Network Rest
network = record {
  Limiter = ℕ × ℤ;
  HttpClient = String;
  RestClient = RestConfig Rest (ℕ × ℤ);
  DiscoveryClient = RestConfig Rest (ℕ × ℤ);
  default_user_agent = "go";
  token_bucket = λ qps burst. (qps, burst);
  http_client_for = λ c. ok c.user_agent;
  rest_client_for = λ c http. ok c;
  discovery_client_for = λ c http. ok c;
}

abbrev connected : Rest
connected = record rest {
  user_agent = "go/cloudshell-controller-manager";
  content_type = "json";
  qps = 50;
  burst = pos 100;
}

abbrev limited_config : RestConfig Rest (ℕ × ℤ)
limited_config = record (rest_of libraries network connected) { rate_limiter = some (50, pos 100) }

abbrev made : Config (generated libraries network)
made = record {
  kube_client = connected;
  cloudshell_client = record {
    discovery_client = limited_config;
    cloudshell_client = record limited_config {
      group_version = "cloudshell.cloudtty.io/v1alpha1";
      api_path = "/apis";
      negotiated = true;
    };
  };
  client = connected;
  kubeconfig = connected;
  core_worker_limit = pos 5;
  max_worker_limit = pos 10;
  cloudshell_image = "img";
  node_selector = [];
  resources = record { limits = []; requests = [] };
  enable_pprof = true;
  profiling_bind_address = ":6060";
  leader_election = election;
}

config-IsShared_example :
    (r : Rest) × (rest_config (generated libraries network) options ≡ ok r)
    × IsShared network
        (rest_of libraries network (with_connection (generated libraries network) options r))
        made.cloudshell_client
unfolding config validate negative_limit invalid_address new_for_config new_for_config_and_client
    new_client limited set_config_defaults with_user_agent
config-IsShared_example = config-IsShared libraries network options made 49 refl refl refl
