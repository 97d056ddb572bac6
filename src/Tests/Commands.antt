-- ===== src/Tests/Commands.antt =====
-- The theorems on the command, on the small cluster and a machine that answers.
use cloudtty.Base.{◌≡◌, refl, String, ◌<>◌, true, false, []}
use cloudtty.Base.Int.{pos, ltb_ℤ}
use cloudtty.Base.Result.{ok}
use cloudtty.WorkerPool.Keys.{worker_owner_label_key}
use cloudtty.Command.{LeaderElection, Options, validate, negative_limit, invalid_address}
use cloudtty.Command.Config.{Rest, Libraries, Config, config}
use cloudtty.Command.Manager.{Process, run_command}
use cloudtty.Command.Starting.{run_command_starts, started_by}

abbrev pub rest : Rest
rest = record {
  host = "https://10.0.0.1";
  user_agent = "";
  accept_content_types = "";
  content_type = "";
  qps = 0;
  burst = pos 0;
}

abbrev pub election : LeaderElection
election = record {
  leader_elect = false;
  resource_lock = "leases";
  resource_namespace = "cloudtty-system";
  resource_name = "cloudshell-controller-manager";
  lease_duration = 15;
  renew_deadline = 10;
  retry_period = 2;
}

abbrev pub libraries : Libraries
libraries = record {
  KubeClient = Rest;
  RuntimeClient = Rest;
  CloudShellClient = Rest;
  split_host_port = λ address. ok ("", address);
  aggregate = λ errors. "invalid";
  get_config = ok rest;
  build_config_from_flags = λ master kubeconfig. ok rest;
  full_user_agent = λ agent. "go/" <> agent;
  new_kube_client = λ r. ok r;
  new_runtime_client = λ r. ok r;
  new_cloudshell_client = λ r. ok r;
  recommended_leader_election = ok election;
  recommended_client_connection =
      ok (record { accept_content_types = ""; content_type = ""; qps = 50; burst = pos 100 });
}

abbrev process : Process
process = record {
  Requirement = String;
  Lock = Unit {0};
  hostname = ok "host";
  uuid = "1";
  new_requirement = λ label. ok label;
  new_lock = λ election r deadline. ok tt;
  is_won = λ lock. true;
}

abbrev pub options : Options
options = record {
  leader_election = election;
  client_connection = record {
    accept_content_types = "";
    content_type = "json";
    qps = 50;
    burst = pos 100;
  };
  master = "";
  kubeconfig = "";
  core_worker_limit = pos 5;
  max_worker_limit = pos 10;
  cloudshell_image = "img";
  node_selector = [];
  resources = record { limits = []; requests = [] };
  enable_pprof = true;
  profiling_bind_address = ":6060";
}

abbrev client_config : Rest
client_config = record rest {
  user_agent = "go/cloudshell-controller-manager";
  content_type = "json";
  qps = 50;
  burst = pos 100;
}

abbrev configured : Config libraries
configured = record {
  kube_client = client_config;
  cloudshell_client = client_config;
  client = client_config;
  kubeconfig = client_config;
  core_worker_limit = pos 5;
  max_worker_limit = pos 10;
  cloudshell_image = "img";
  node_selector = [];
  resources = record { limits = []; requests = [] };
  enable_pprof = true;
  profiling_bind_address = ":6060";
  leader_election = election;
}

run_command_starts_example :
    (ltb_ℤ (pos 5) (pos 0) ≡ false)
    × (ltb_ℤ (pos 10) (pos 0) ≡ false)
    × (run_command libraries process options ≡ (ok tt, started_by libraries process options))
unfolding config validate negative_limit invalid_address
run_command_starts_example =
    run_command_starts libraries process options configured worker_owner_label_key refl refl refl
