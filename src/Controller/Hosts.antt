-- ===== src/Controller/Hosts.antt =====
-- `validateIngressHost` of pkg/controllers/cloudshell_controller.go.
pub mod Validity
use Prim.Native.Char.{code}
use cloudtty.Base.{
  String, ◌<>◌, Bool, ◌&&◌, List, [], ◌∷◌, Option, none, some, if◌then◌else◌, nat_eq,
}
use cloudtty.Text.{is_empty, contains_char, join}
use cloudtty.Cluster.{Env}

abbrev pub has_star : String → Bool
unfolding contains_char
has_star s = contains_char b'*' s

-- The text after a prefix "*.", if that is there.
abbrev pub after_wildcard : String → Option String
after_wildcard String.[] = none
after_wildcard (String.◌∷◌ c String.[]) = none
after_wildcard (String.◌∷◌ c (String.◌∷◌ d s)) =
    if nat_eq (code c) b'*' && nat_eq (code d) b'.' then some s else none

abbrev pub misplaced_wildcard : List String
misplaced_wildcard = "wildcard '*' is only allowed as the first label (prefix '*.')" ∷ []

module _ (E : Env) where
  unfoldable pub wrap_suffix : String → List String → List String
  wrap_suffix suffix [] = []
  wrap_suffix suffix (e ∷ es) =
      ("invalid wildcard host suffix " <> (E.quote suffix <> (": " <> join "; " (e ∷ es)))) ∷ []

  unfoldable pub validate_suffix : String → List String
  validate_suffix suffix =
      if has_star suffix
      then misplaced_wildcard
      else if is_empty suffix
      then "wildcard host must have a suffix after '*.'" ∷ []
      else wrap_suffix suffix (E.is_dns1123_subdomain suffix)

  unfoldable pub validate_ingress_host : String → List String
  validate_ingress_host host =
      if is_empty host then "host must not be empty" ∷ [] else elim (after_wildcard host) [
        | some suffix ↦ validate_suffix suffix
        | none ↦ if has_star host then misplaced_wildcard else E.is_dns1123_subdomain host
      ]
