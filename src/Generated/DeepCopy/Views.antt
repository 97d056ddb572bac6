-- ===== src/Generated/DeepCopy/Views.antt =====
-- What is read of the structs of pkg/apis/cloudshell/v1alpha1/types.go on a heap: the values that the
-- other modules work on.
use cloudtty.Base.{ℕ, String, List, [], Option, none, some}
use cloudtty.Base.Dict.{Dict}
use cloudtty.Objects.{IngressConfig, CloudShellSpec, CloudShellStatus}
use cloudtty.Generated.DeepCopy.Heap.{
  secret_references, numbers, ingress_configs, virtual_service_configs, arrays, string_maps,
  quantity_maps, shell_arrays, SpecAt, StatusAt, IngressConfigAt, SettingAt, TypeMeta, ShellAt,
  ShellListAt,
}
use cloudtty.Generated.DeepCopy.Copied.{Reading, give, ◌then◌}
use cloudtty.Generated.DeepCopy.Rules.{read_pointer, read_items, read_entries}

-- What is read of the values of other packages.
pub record Views (F Metadata ListMetadata : Type 0) : Type 0 where
  pub object_meta : F → Reading F Metadata
  pub list_meta : F → Reading F ListMetadata
  pub env_var : F → Reading F (String × String)
  pub quantity : F → Reading F String
  pub time : ℕ → Reading F ℕ

-- The contents of a setting, of a shell and of a list of shells.
pub record Quantities : Type 0 where
  pub limits : Option Dict
  pub requests : Option Dict

pub record Shell (X : Type 0) : Type 0 where
  pub type_meta : TypeMeta
  pub metadata : X
  pub spec : CloudShellSpec
  pub status : CloudShellStatus

pub record ShellList (X Y : Type 0) : Type 0 where
  pub type_meta : TypeMeta
  pub metadata : Y
  pub items : Option (List (Shell X))

abbrev or_empty : {A : Type 0} → Option (List A) → List A
or_empty none = []
or_empty (some xs) = xs

module _ {F X Y : Type 0} (W : Views F X Y) where
  unfoldable pub read_strings : Option ℕ → Reading F (Option Dict)
  read_strings p = read_pointer string_maps (read_entries give) p

  unfoldable pub read_ingress_config : IngressConfigAt → Reading F IngressConfig
  unfolding read_strings
  read_ingress_config c = read_strings c.annotations then λ annotations. give record {
    ingress_name = c.ingress_name;
    namespace = c.namespace;
    ingress_class_name = c.ingress_class_name;
    annotations = annotations;
    host = c.host;
  }

  unfoldable pub read_spec : SpecAt → Reading F CloudShellSpec
  unfolding read_ingress_config read_strings
  read_spec s = read_pointer secret_references give s.secret_ref then λ secret_ref.
      read_pointer numbers give s.ttl_seconds_after_started then λ ttl.
      read_pointer ingress_configs read_ingress_config s.ingress_config then λ ingress.
      read_pointer virtual_service_configs give s.virtual_service_config then λ virtual.
      read_pointer arrays (read_items W.env_var) s.env then λ env.
      read_strings s.ttyd_client_options then λ options. give record {
        secret_ref = secret_ref;
        image = s.image;
        once = s.once;
        command_action = s.command_action;
        ttl_seconds_after_started = ttl;
        cleanup = s.cleanup;
        expose_mode = s.expose_mode;
        ingress_config = ingress;
        virtual_service_config = virtual;
        path_prefix = s.path_prefix;
        path_suffix = s.path_suffix;
        url_arg = s.url_arg;
        env = or_empty env;
        ttyd_client_options = options;
      }

  unfoldable pub read_setting : SettingAt → Reading F Quantities
  read_setting s = read_pointer quantity_maps (read_entries W.quantity) s.limits then λ limits.
      read_pointer quantity_maps (read_entries W.quantity) s.requests then λ requests.
      give record { limits = limits; requests = requests }

  unfoldable pub read_time : Option ℕ → Reading F (Option ℕ)
  read_time none = give none
  read_time (some p) = W.time p then λ t. give (some t)

  unfoldable pub read_status : StatusAt → Reading F CloudShellStatus
  unfolding read_time
  read_status s = read_time s.last_schedule_time then λ time.
      give record { phase = s.phase; access_url = s.access_url; last_schedule_time = time }

  unfoldable pub read_shell : ShellAt F → Reading F (Shell X)
  unfolding read_spec read_status
  read_shell s = W.object_meta s.metadata then λ metadata. read_spec s.spec then λ spec.
      read_status s.status then λ status.
      give record { type_meta = s.type_meta; metadata = metadata; spec = spec; status = status }

  unfoldable pub read_shell_list : ShellListAt F → Reading F (ShellList X Y)
  unfolding read_shell
  read_shell_list l = W.list_meta l.metadata then λ metadata.
      read_pointer shell_arrays (read_items read_shell) l.items then λ items.
      give record { type_meta = l.type_meta; metadata = metadata; items = items }
