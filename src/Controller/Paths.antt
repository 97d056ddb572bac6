-- ===== src/Controller/Paths.antt =====
-- `SetRouteRulePath`, `IngressNamespacedName` and `VsNamespacedName` of
-- pkg/controllers/cloudshell_controller.go.
pub mod Apart
use cloudtty.Base.{◌-◌, String, ◌<>◌, Option, none, some, if◌then◌else◌}
use cloudtty.Objects.{CloudShell, IngressConfig, VirtualServiceConfig}
use cloudtty.Text.{is_empty, ends_in_slash, text_length, text_take}

abbrev pub default_path_prefix : String
default_path_prefix = "/apis/v1alpha1/cloudshell"

abbrev pub default_ingress_name : String
default_ingress_name = "cloudshell-ingress"

abbrev pub default_virtual_service_name : String
default_virtual_service_name = "cloudshell-virtualService"

unfoldable pub path_prefix : String → String
path_prefix prefix =
    if ends_in_slash prefix
    then text_take (text_length prefix - 1) prefix <> default_path_prefix
    else prefix <> default_path_prefix

unfoldable pub set_route_rule_path : CloudShell → String
unfolding path_prefix
set_route_rule_path shell =
    if is_empty shell.spec.path_suffix
    then path_prefix shell.spec.path_prefix <> ("/" <> shell.name)
    else path_prefix shell.spec.path_prefix
      <> ("/" <> (shell.name <> ("/" <> shell.spec.path_suffix)))

-- The first text, unless it is empty.
abbrev pub or_else : String → String → String
or_else first second = if is_empty first then second else first

pub record NamespacedName : Type 0 where
  pub name : String
  pub namespace : String

abbrev pub ingress_name_of : String → Option IngressConfig → NamespacedName
ingress_name_of namespace none = record { name = default_ingress_name; namespace = namespace }
ingress_name_of namespace (some config) = record {
  name = or_else config.ingress_name default_ingress_name;
  namespace = or_else config.namespace namespace;
}

unfoldable pub ingress_namespaced_name : CloudShell → NamespacedName
ingress_namespaced_name shell = ingress_name_of shell.namespace shell.spec.ingress_config

abbrev pub vs_name_of : String → Option VirtualServiceConfig → NamespacedName
vs_name_of namespace none = record { name = default_virtual_service_name; namespace = namespace }
vs_name_of namespace (some config) = record {
  name = or_else config.virtual_service_name default_virtual_service_name;
  namespace = or_else config.namespace namespace;
}

unfoldable pub vs_namespaced_name : CloudShell → NamespacedName
vs_namespaced_name shell = vs_name_of shell.namespace shell.spec.virtual_service_config
