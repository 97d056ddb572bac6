-- ===== src/Command/Clients.antt =====
-- The client of shells that `Config` of cmd/app/options/option.go makes, with the generated
-- `NewForConfig`.
use cloudtty.Base.{ℕ, suc, false, List, [], ◌∷◌, none, ◌≡◌, refl, subst}
use cloudtty.Base.Result.{Result, ok}
use cloudtty.Text.{is_empty}
use cloudtty.Command.{Options, Invalid, validate}
use cloudtty.Command.Config.{
  Rest, Libraries, Config, rest_config, with_connection, with_clients, config_of, config,
  cloudshell_controller_manager_user_agent,
}
use cloudtty.Command.Starting.{and_then-ok}
use cloudtty.Generated.Clientset.{RestConfig, Network, Clientset, new_for_config}
use cloudtty.Generated.Clientset.Sharing.{IsShared, new_for_config-IsShared}

module _ (L : Libraries) (N : Network Rest) where
  -- The command's configuration has no limiter and names no group.
  abbrev pub rest_of : Rest → RestConfig Rest N.Limiter
  rest_of r = record {
    user_agent = r.user_agent;
    qps = r.qps;
    burst = r.burst;
    rate_limiter = none;
    group_version = "";
    api_path = "";
    negotiated = false;
    others = r;
  }

  -- `versioned.NewForConfig(kubeconfig)`
  abbrev pub generated : Libraries
  generated = record L {
    CloudShellClient = Clientset N;
    new_cloudshell_client = λ r. new_for_config N (rest_of r);
  }

  same_client :
      (a c : Config generated)
      → ◌≡◌ {A = Result (Config generated)} (ok a) (ok c)
      → a.cloudshell_client ≡ c.cloudshell_client
  same_client a c h = cc

  with_clients-IsShared :
      (o : Options) (r : Rest) (c : Config generated) (n : ℕ)
      → is_empty r.user_agent ≡ false
      → r.qps ≡ suc n
      → with_clients generated o r ≡ ok c
      → IsShared N (rest_of r) c.cloudshell_client
  unfolding with_clients
  with_clients-IsShared o r c n agent paced made =
      let (k, _, h1) = and_then-ok generated (L.new_kube_client r) _ c made in
      let (m, _, h2) = and_then-ok generated (L.new_runtime_client r) _ c h1 in
      let (s, h3, last) = and_then-ok generated (new_for_config N (rest_of r)) _ c h2 in
      subst (IsShared N (rest_of r)) (same_client _ c last)
        (new_for_config-IsShared N (rest_of r) s n agent refl paced h3)

  config_of-IsShared :
      (es : List Invalid) (o : Options) (c : Config generated) (n : ℕ)
      → is_empty (L.full_user_agent cloudshell_controller_manager_user_agent) ≡ false
      → o.client_connection.qps ≡ suc n
      → config_of generated es o ≡ ok c
      → (r : Rest) × (rest_config generated o ≡ ok r)
        × IsShared N (rest_of (with_connection generated o r)) c.cloudshell_client
  unfolding config_of with_connection
  config_of-IsShared (e ∷ es) o c n agent paced made = cc
  config_of-IsShared [] o c n agent paced made =
      let (r, found, rest) = and_then-ok generated (rest_config generated o) _ c made in
      (r, found, with_clients-IsShared o (with_connection generated o r) c n agent paced rest)

  -- The command's client of shells: the client of the group and the one for discovery are made with one
  -- HTTP client, for the configuration with the command's user agent, and share one rate limiter with the
  -- QPS and the burst of the options; the burst is above 0; and the former is made for the group's
  -- version under /apis. The configuration is assumed to be made, the user agent not to be empty,
  -- and the QPS to be above 0.
  pub config-IsShared :
      (o : Options) (c : Config generated) (n : ℕ)
      → is_empty (L.full_user_agent cloudshell_controller_manager_user_agent) ≡ false
      → o.client_connection.qps ≡ suc n
      → config generated o ≡ ok c
      → (r : Rest) × (rest_config generated o ≡ ok r)
        × IsShared N (rest_of (with_connection generated o r)) c.cloudshell_client
  unfolding config
  config-IsShared o c n agent paced made =
      config_of-IsShared (validate generated.split_host_port o) o c n agent paced made
