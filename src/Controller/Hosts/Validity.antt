-- ===== src/Controller/Hosts/Validity.antt =====
-- Which hosts `validateIngressHost` accepts.
use cloudtty.Base.{
  String, true, false, [], Option, none, some, ◌≡◌, ◌↔◌, ◌⊎◌, refl, arith, inl, inr, Option-cases,
}
use cloudtty.Text.{is_empty, contains_char}
use cloudtty.Cluster.{Env}
use cloudtty.Controller.Hosts.{
  has_star, after_wildcard, wrap_suffix, validate_suffix, validate_ingress_host,
}

after_wildcard-has_star :
    (host suffix : String)
    → after_wildcard host ≡ some suffix
    → (has_star host ≡ true) × (is_empty host ≡ false)
unfolding contains_char
after_wildcard-has_star String.[] suffix h = cc
after_wildcard-has_star (String.◌∷◌ c String.[]) suffix h = cc
after_wildcard-has_star (String.◌∷◌ c (String.◌∷◌ d s)) suffix h = (ground arith, refl)

module _ (E : Env) where
  -- A host name without a wildcard.
  pub record IsName (s : String) : Type 0 where
    pub set : is_empty s ≡ false
    pub plain : has_star s ≡ false
    pub valid : E.is_dns1123_subdomain s ≡ []

  abbrev pub IsWildcardHost : Option String → Type 0
  IsWildcardHost none = ⊥
  IsWildcardHost (some suffix) = IsName suffix

  suffix-valid : (suffix : String) → (validate_suffix E suffix ≡ []) ↔ IsName suffix
  unfolding validate_suffix wrap_suffix
  suffix-valid suffix = ground arith

  -- A host is accepted exactly if it is a valid name without a `*`, or `*.` before such a name.
  pub validate_ingress_host_iff :
      (host : String)
      → (validate_ingress_host E host ≡ []) ↔ (IsName host ⊎ IsWildcardHost (after_wildcard host))
  unfolding validate_ingress_host
  validate_ingress_host_iff host = elim (Option-cases (after_wildcard host)) [
    | inl e ↦ ground (arith, e)
    | inr (suffix, e) ↦
        ground (arith, e, after_wildcard-has_star host suffix e, suffix-valid suffix)
  ]
