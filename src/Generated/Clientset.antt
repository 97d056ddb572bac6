-- ===== src/Generated/Clientset.antt =====
-- pkg/generated/clientset/versioned: the set of clients (clientset.go) and the client of the group of
-- the shells (typed/cloudshell/v1alpha1/cloudshell_client.go).
pub mod Sharing
use cloudtty.Base.{ℕ, zero, suc, String, Bool, true, false, Option, none, some, if◌then◌else◌}
use cloudtty.Base.Int.{ℤ, pos, negsuc}
use cloudtty.Base.Result.{Error, failed, Result, ok, err}
use cloudtty.Text.{is_empty}

-- What the code reads and writes of client-go's `rest.Config`: `O` is what it leaves alone, `Limiter` the
-- type of rate limiters. `negotiated` says that the serializer of the group's scheme is set.
pub record RestConfig (O Limiter : Type 0) : Type 0 where
  pub user_agent : String
  pub qps : ℕ
  pub burst : ℤ
  pub rate_limiter : Option Limiter
  pub group_version : String
  pub api_path : String
  pub negotiated : Bool
  pub others : O

-- The functions of client-go that make a client of a configuration.
pub record Network (O : Type 0) : Type 1 where
  pub Limiter : Type 0
  pub HttpClient : Type 0
  pub RestClient : Type 0
  pub DiscoveryClient : Type 0
  pub default_user_agent : String
  pub token_bucket : ℕ → ℤ → Limiter
  pub http_client_for : RestConfig O Limiter → Result HttpClient
  pub rest_client_for : RestConfig O Limiter → HttpClient → Result RestClient
  pub discovery_client_for : RestConfig O Limiter → HttpClient → Result DiscoveryClient

-- `Clientset`
pub record Clientset {O : Type 0} (N : Network O) : Type 0 where
  pub discovery_client : N.DiscoveryClient
  pub cloudshell_client : N.RestClient

abbrev pub schema_group_version : String
schema_group_version = "cloudshell.cloudtty.io/v1alpha1"

abbrev pub and_then : {A B : Type 0} → Result A → (A → Result B) → Result B
and_then (ok a) f = f a
and_then (err e) f = err e

module _ {O : Type 0} (N : Network O) where
  -- `if c.UserAgent == "" { ... }`, on a copy.
  unfoldable pub with_user_agent : RestConfig O N.Limiter → RestConfig O N.Limiter
  with_user_agent c =
      if is_empty c.user_agent then record c { user_agent = N.default_user_agent } else c

  unfoldable pub set_config_defaults : RestConfig O N.Limiter → RestConfig O N.Limiter
  unfolding with_user_agent
  set_config_defaults c =
      with_user_agent
        (record c { group_version = schema_group_version; api_path = "/apis"; negotiated = true })

  -- `NewForConfigAndClient` of the group's client: on a copy.
  unfoldable pub new_client : RestConfig O N.Limiter → N.HttpClient → Result N.RestClient
  unfolding set_config_defaults
  new_client c http = N.rest_client_for (set_config_defaults c) http

  abbrev is_burst : ℤ → Bool
  is_burst (pos zero) = false
  is_burst (pos (suc _)) = true
  is_burst (negsuc _) = false

  -- Without a limiter, and with QPS above 0, a limiter is made of QPS and Burst. QPS is a float32 in
  -- the source, and a natural number here: the code asks only whether it is above 0.
  unfoldable pub limited :
      RestConfig O N.Limiter → Option N.Limiter → ℕ → Result (RestConfig O N.Limiter)
  limited c (some _) qps = ok c
  limited c none zero = ok c
  limited c none (suc n) =
      if is_burst c.burst
      then ok (record c { rate_limiter = some (N.token_bucket c.qps c.burst) })
      else err (
          failed
            "burst is required to be greater than 0 when RateLimiter is not set and QPS is set to greater than 0")

  unfoldable pub new_for_config_and_client :
      RestConfig O N.Limiter → N.HttpClient → Result (Clientset N)
  unfolding limited new_client
  new_for_config_and_client c http = and_then (limited c c.rate_limiter c.qps) λ shared.
      and_then (new_client shared http) λ shells.
        and_then (N.discovery_client_for shared http)
          λ discovery. ok (record { discovery_client = discovery; cloudshell_client = shells })

  unfoldable pub new_for_config : RestConfig O N.Limiter → Result (Clientset N)
  unfolding with_user_agent new_for_config_and_client
  new_for_config c =
      and_then (N.http_client_for (with_user_agent c))
        λ http. new_for_config_and_client (with_user_agent c) http
