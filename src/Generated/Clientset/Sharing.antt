-- ===== src/Generated/Clientset/Sharing.antt =====
-- How the clients of a set are made.
use cloudtty.Base.{ℕ, suc, Bool, true, false, none, some, ◌≡◌, refl, ap, ◌∙◌, sym, if◌then◌else◌}
use cloudtty.Base.Result.{Error, Result, ok, err}
use cloudtty.Text.{is_empty}
use cloudtty.Generated.Clientset.{
  RestConfig, Network, Clientset, and_then, with_user_agent, set_config_defaults, new_client,
  is_burst, limited, new_for_config_and_client, new_for_config,
}

pub and_then-inv :
    {A B : Type 0} (r : Result A) (f : A → Result B) (b : B)
    → and_then r f ≡ ok b
    → (a : A) × (r ≡ ok a) × (f a ≡ ok b)
and_then-inv (ok a) f b h = (a, refl, h)
and_then-inv (err e) f b h = cc

chosen :
    {A : Type 0} (b : Bool) (a d : A) (e : Error)
    → (if b then ok a else err e) ≡ ok d
    → (b ≡ true) × (d ≡ a)
chosen true a d e h = (refl, cc)
chosen false a d e h = cc

module _ {O : Type 0} (N : Network O) where
  -- Both clients of the set were made with one HTTP client and one rate limiter.
  pub record IsShared (c : RestConfig O N.Limiter) (set : Clientset N) : Type 0 where
    pub http : N.HttpClient
    pub burst_positive : is_burst N c.burst ≡ true
    pub http_made : N.http_client_for c ≡ ok http
    pub discovery_made :
        N.discovery_client_for
          (record c { rate_limiter = some (N.token_bucket c.qps c.burst) })
          http
        ≡ ok set.discovery_client
    pub shells_made :
        N.rest_client_for
          (record c {
            rate_limiter = some (N.token_bucket c.qps c.burst);
            group_version = "cloudshell.cloudtty.io/v1alpha1";
            api_path = "/apis";
            negotiated = true;
          })
          http
        ≡ ok set.cloudshell_client

  named : (c : RestConfig O N.Limiter) → is_empty c.user_agent ≡ false → with_user_agent N c ≡ c
  unfolding with_user_agent
  named c h = rw h refl

  limited-burst :
      (c d : RestConfig O N.Limiter) (n : ℕ)
      → limited N c none (suc n) ≡ ok d
      → (is_burst N c.burst ≡ true)
        × (d ≡ record c { rate_limiter = some (N.token_bucket c.qps c.burst) })
  unfolding limited
  limited-burst c d n h = chosen (is_burst N c.burst) _ d _ h

  new_client-named :
      (c : RestConfig O N.Limiter) (http : N.HttpClient)
      → is_empty c.user_agent ≡ false
      → new_client N c http
        ≡ N.rest_client_for
            (record c {
              group_version = "cloudshell.cloudtty.io/v1alpha1";
              api_path = "/apis";
              negotiated = true;
            })
            http
  unfolding new_client set_config_defaults with_user_agent
  new_client-named c http h = rw (h, new_client, set_config_defaults) refl

  from_steps :
      (c shared : RestConfig O N.Limiter) (http : N.HttpClient) (shells : N.RestClient)
      (discovery : N.DiscoveryClient) (set : Clientset N)
      → is_empty c.user_agent ≡ false
      → is_burst N c.burst ≡ true
      → N.http_client_for c ≡ ok http
      → shared ≡ record c { rate_limiter = some (N.token_bucket c.qps c.burst) }
      → new_client N shared http ≡ ok shells
      → N.discovery_client_for shared http ≡ ok discovery
      → ◌≡◌ {A = Result (Clientset N)}
          (ok (record { discovery_client = discovery; cloudshell_client = shells }))
          (ok set)
      → IsShared c set
  from_steps c shared http shells discovery set agent positive http_made is_shared shells_made
        discovery_made last =
      record {
        http = http;
        burst_positive = positive;
        http_made = http_made;
        discovery_made =
            ap (λ d. N.discovery_client_for d http) (sym is_shared) ∙ discovery_made ∙ cc;
        shells_made =
            sym (new_client-named _ http agent)
            ∙ ap (λ d. new_client N d http) (sym is_shared)
            ∙ shells_made
            ∙ cc;
      }

  -- A set of clients that is made of a configuration that names a user agent, has a QPS above 0 and no
  -- limiter of its own.
  pub new_for_config-IsShared :
      (c : RestConfig O N.Limiter) (set : Clientset N) (n : ℕ)
      → is_empty c.user_agent ≡ false
      → c.rate_limiter ≡ none
      → c.qps ≡ suc n
      → new_for_config N c ≡ ok set
      → IsShared c set
  unfolding new_for_config new_for_config_and_client new_client set_config_defaults with_user_agent
  new_for_config-IsShared c set n agent no_limiter paced made =
      let at_c : and_then (N.http_client_for c) (new_for_config_and_client N c) ≡ ok set =
        rw (← named c agent) made in
      let (http, http_made, rest) = and_then-inv (N.http_client_for c) _ set at_c in
      let (shared, chosen_c, rest1) = and_then-inv (limited N c c.rate_limiter c.qps) _ set rest in
      let (positive, is_shared) = limited-burst c shared n (
        sym (ap (λ q. limited N c none q) paced)
        ∙ sym (ap (λ l. limited N c l c.qps) no_limiter)
        ∙ chosen_c) in
      let (shells, shells_made, rest2) = and_then-inv (new_client N shared http) _ set rest1 in
      let (discovery, discovery_made, last) =
        and_then-inv (N.discovery_client_for shared http) _ set rest2 in
      from_steps c shared http shells discovery set agent positive http_made is_shared shells_made
        discovery_made last
