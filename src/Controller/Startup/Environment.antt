-- ===== src/Controller/Startup/Environment.antt =====
-- The settings that the environment of a spec gives, and the client options.
use cloudtty.Base.{
  String, ◌<>◌, Bool, true, false, ◌||◌, List, [], ◌∷◌, some, if◌then◌else◌, ◌==◌, ◌≡◌, refl, arith,
  eq_iff, ap, ◌∙◌, Bool-cases, inl, inr,
}
use cloudtty.Base.Dict.{Dict}
use cloudtty.Base.Result.{failed, ok, err}
use cloudtty.Text.{join}
use cloudtty.Controller.Startup.{
  Settings, set_setting, read_env, has_bar, option_texts, client_options,
}

-- The value of the last entry for a name, or another if there is none.
abbrev pub last_value : String → String → List (String × String) → String
last_value name v [] = v
last_value name v ((n, w) ∷ env) =
    let found = last_value name w env in
    let kept = last_value name v env in if n == name then found else kept

set_setting_lem :
    (n v : String) (s : Settings)
    → ((set_setting n v s).pod_name ≡ (if n == "POD_NAME" then v else s.pod_name))
      × ((set_setting n v s).namespace ≡ (if n == "POD_NAMESPACE" then v else s.namespace))
      × ((set_setting n v s).container ≡ (if n == "CONTAINER" then v else s.container))
      × ((set_setting n v s).server_buffer_size
          ≡ (if n == "TTYD_SERVER_BUFFER_SIZE" then v else s.server_buffer_size))
      × ((set_setting n v s).ping_interval
          ≡ (if n == "TTYD_PING_INTERVAL" then v else s.ping_interval))
      × ((set_setting n v s).credential ≡ (if n == "TTYD_CREDENTIAL" then v else s.credential))
      × ((set_setting n v s).ps1 ≡ (if n == "PS1" then v else s.ps1))
unfolding set_setting
set_setting_lem n v s = elim (Bool-cases (n == "POD_NAME")) [
  | inl e ↦ rw ((eq_iff n "POD_NAME").0 e) (refl, refl, refl, refl, refl, refl, refl)
  | inr e0 ↦ elim (Bool-cases (n == "POD_NAMESPACE")) [
    | inl e ↦ rw ((eq_iff n "POD_NAMESPACE").0 e) (refl, refl, refl, refl, refl, refl, refl)
    | inr e1 ↦ elim (Bool-cases (n == "CONTAINER")) [
      | inl e ↦ rw ((eq_iff n "CONTAINER").0 e) (refl, refl, refl, refl, refl, refl, refl)
      | inr e2 ↦ elim (Bool-cases (n == "TTYD_SERVER_BUFFER_SIZE")) [
        | inl e ↦
            rw ((eq_iff n "TTYD_SERVER_BUFFER_SIZE").0 e) (refl, refl, refl, refl, refl, refl, refl)
        | inr e3 ↦ elim (Bool-cases (n == "TTYD_PING_INTERVAL")) [
          | inl e ↦
              rw ((eq_iff n "TTYD_PING_INTERVAL").0 e) (refl, refl, refl, refl, refl, refl, refl)
          | inr e4 ↦ elim (Bool-cases (n == "TTYD_CREDENTIAL")) [
            | inl e ↦
                rw ((eq_iff n "TTYD_CREDENTIAL").0 e) (refl, refl, refl, refl, refl, refl, refl)
            | inr e5 ↦ elim (Bool-cases (n == "PS1")) [
              | inl e ↦ rw ((eq_iff n "PS1").0 e) (refl, refl, refl, refl, refl, refl, refl)
              | inr e6 ↦ rw (e0, e1, e2, e3, e4, e5, e6) (refl, refl, refl, refl, refl, refl, refl)
            ]
          ]
        ]
      ]
    ]
  ]
]

last_value-if :
    (b : Bool) (name v w : String) (env : List (String × String))
    → last_value name (if b then v else w) env
      ≡ (if b then last_value name v env else last_value name w env)
last_value-if true name v w env = refl
last_value-if false name v w env = refl

-- Each setting has the value of the last entry of its name in the environment, and without such an
-- entry stays as it was.
pub read_env_last :
    (env : List (String × String)) (s : Settings)
    → ((read_env env s).pod_name ≡ last_value "POD_NAME" s.pod_name env)
      × ((read_env env s).namespace ≡ last_value "POD_NAMESPACE" s.namespace env)
      × ((read_env env s).container ≡ last_value "CONTAINER" s.container env)
      × ((read_env env s).server_buffer_size
          ≡ last_value "TTYD_SERVER_BUFFER_SIZE" s.server_buffer_size env)
      × ((read_env env s).ping_interval ≡ last_value "TTYD_PING_INTERVAL" s.ping_interval env)
      × ((read_env env s).credential ≡ last_value "TTYD_CREDENTIAL" s.credential env)
      × ((read_env env s).ps1 ≡ last_value "PS1" s.ps1 env)
unfolding read_env
read_env_last [] s = (refl, refl, refl, refl, refl, refl, refl)
read_env_last ((n, v) ∷ env) s =
    let (h0, h1, h2, h3, h4, h5, h6) = read_env_last env (set_setting n v s) in
    let (k0, k1, k2, k3, k4, k5, k6) = set_setting_lem n v s in
    (
      h0
          ∙ ap (λ x. last_value "POD_NAME" x env) k0
          ∙ last_value-if (n == "POD_NAME") "POD_NAME" v s.pod_name env,
      h1
          ∙ ap (λ x. last_value "POD_NAMESPACE" x env) k1
          ∙ last_value-if (n == "POD_NAMESPACE") "POD_NAMESPACE" v s.namespace env,
      h2
          ∙ ap (λ x. last_value "CONTAINER" x env) k2
          ∙ last_value-if (n == "CONTAINER") "CONTAINER" v s.container env,
      h3
          ∙ ap (λ x. last_value "TTYD_SERVER_BUFFER_SIZE" x env) k3
          ∙ last_value-if (n == "TTYD_SERVER_BUFFER_SIZE") "TTYD_SERVER_BUFFER_SIZE" v
              s.server_buffer_size env,
      h4
          ∙ ap (λ x. last_value "TTYD_PING_INTERVAL" x env) k4
          ∙ last_value-if (n == "TTYD_PING_INTERVAL") "TTYD_PING_INTERVAL" v s.ping_interval env,
      h5
          ∙ ap (λ x. last_value "TTYD_CREDENTIAL" x env) k5
          ∙ last_value-if (n == "TTYD_CREDENTIAL") "TTYD_CREDENTIAL" v s.credential env,
      h6 ∙ ap (λ x. last_value "PS1" x env) k6 ∙ last_value-if (n == "PS1") "PS1" v s.ps1 env,
    )

-- No key and no value has the delimiter.
abbrev pub has_no_bar : Dict → Bool
has_no_bar [] = true
has_no_bar ((k, v) ∷ options) =
    let rest = has_no_bar options in if has_bar k || has_bar v then false else rest

abbrev pub pairs : Dict → List String
pairs [] = []
pairs ((k, v) ∷ options) = (k <> ("=" <> v)) ∷ pairs options

option_texts_lem :
    (options : Dict)
    → option_texts options ≡ (
        if has_no_bar options
        then ok (pairs options)
        else err (failed "clientOptions key or value contains delimiter(|)"))
unfolding option_texts
option_texts_lem [] = refl
option_texts_lem ((k, v) ∷ options) = ground (arith, option_texts_lem options)

-- Client options become `k=v` joined by the delimiter, and are refused exactly if the delimiter
-- stands in a key or a value.
pub client_options_joined :
    (options : Dict)
    → client_options (some options) ≡ (
        if has_no_bar options
        then ok (join "|" (pairs options))
        else err (failed "clientOptions key or value contains delimiter(|)"))
unfolding client_options
client_options_joined options = ground (arith, option_texts_lem options)
