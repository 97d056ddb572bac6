-- ===== src/Generated/DeepCopy.antt =====
-- pkg/apis/cloudshell/v1alpha1/zz_generated.deepcopy.go: the deep copies of the structs of types.go, on
-- a heap of addressed cells. A struct is a record whose pointers, slices and maps are addresses, `none`
-- where they are nil. `F` is the type of the values of other packages: an ObjectMeta, a ListMeta, an
-- EnvVar, a Quantity, a Time.
pub mod Heap
pub mod Copied
pub mod Rules
pub mod Views
pub mod Structs
pub mod Isolation
use mathlib.Core.Option
use cloudtty.Base.{ℕ, String, List, [], ◌∷◌, Option, none, some}
use cloudtty.Base.Dict.{Dict}
use cloudtty.Generated.DeepCopy.Heap.{
  M, pure, ◌>>=◌, load, new, Kind, secret_references, numbers, ingress_configs,
  virtual_service_configs, arrays, string_maps, quantity_maps, settings, specs, statuses, shells,
  shell_lists, shell_arrays, SpecAt, StatusAt, IngressConfigAt, SettingAt, ShellAt, ShellListAt,
}
use cloudtty.Objects.{VirtualServiceConfig}

module _ {F A : Type 0} where
  -- `out := new(T); in.DeepCopyInto(out)`, with the copy of what is pointed to. The address of what is
  -- allocated is not observable: it is allocated when its contents are known.
  unfoldable pub copy_at : Kind F A → (A → M F A) → ℕ → M F ℕ
  copy_at kind copy p = do a ← load kind p; b ← copy a; new kind b

  -- `if in.P != nil { *out = new(T); (*in).DeepCopyInto(*out) }`
  unfoldable pub copy_pointer : Kind F A → (A → M F A) → Option ℕ → M F (Option ℕ)
  unfolding copy_at
  copy_pointer kind copy none = pure none
  copy_pointer kind copy (some p) = do q ← copy_at kind copy p; pure (some q)

  -- `for i := range *in { (*in)[i].DeepCopyInto(&(*out)[i]) }`
  unfoldable pub copy_items : (A → M F A) → List A → M F (List A)
  copy_items copy [] = pure []
  copy_items copy (a ∷ items) = do b ← copy a; copies ← copy_items copy items; pure (b ∷ copies)

  -- `for key, val := range *in { (*out)[key] = val.DeepCopy() }`
  unfoldable pub copy_entries : (A → M F A) → List (String × A) → M F (List (String × A))
  copy_entries copy [] = pure []
  copy_entries copy ((key, val) ∷ entries) = do
    copied ← copy val
    copies ← copy_entries copy entries
    pure ((key, copied) ∷ copies)

-- `runtime.Object`, an interface, with the pointers of the two types.
pub data Object : Type 0 where
  shell_object list_object : ℕ → Object

-- The deep copies of other packages. That of a time is given its address, and allocates.
pub record Library (F : Type 0) : Type 0 where
  pub object_meta : F → M F F
  pub list_meta : F → M F F
  pub env_var : F → M F F
  pub quantity : F → M F F
  pub time : ℕ → M F ℕ

module _ {F : Type 0} (L : Library F) where
  unfoldable pub copy_strings : Option ℕ → M F (Option ℕ)
  unfolding copy_pointer copy_entries
  copy_strings m = copy_pointer string_maps (copy_entries pure) m

  -- `func (in *IngressConfig) DeepCopyInto(out *IngressConfig)`
  unfoldable pub copy_ingress_config : IngressConfigAt → M F IngressConfigAt
  unfolding copy_strings
  copy_ingress_config c = do
    annotations ← copy_strings c.annotations
    pure (record c { annotations = annotations })

  -- `func (in *ResourceSetting) DeepCopyInto(out *ResourceSetting)`
  unfoldable pub copy_resource_setting : SettingAt → M F SettingAt
  unfolding copy_pointer copy_entries
  copy_resource_setting s = do
    limits ← copy_pointer quantity_maps (copy_entries L.quantity) s.limits
    requests ← copy_pointer quantity_maps (copy_entries L.quantity) s.requests
    pure record { limits = limits; requests = requests }

  -- `func (in *CloudShellSpec) DeepCopyInto(out *CloudShellSpec)`
  unfoldable pub copy_spec : SpecAt → M F SpecAt
  unfolding copy_pointer copy_items copy_ingress_config copy_strings
  copy_spec s = do
    secret_ref ← copy_pointer secret_references pure s.secret_ref
    ttl ← copy_pointer numbers pure s.ttl_seconds_after_started
    ingress ← copy_pointer ingress_configs copy_ingress_config s.ingress_config
    virtual ← copy_pointer virtual_service_configs pure s.virtual_service_config
    env ← copy_pointer arrays (copy_items L.env_var) s.env
    options ← copy_strings s.ttyd_client_options
    pure record s {
      secret_ref = secret_ref;
      ttl_seconds_after_started = ttl;
      ingress_config = ingress;
      virtual_service_config = virtual;
      env = env;
      ttyd_client_options = options;
    }

  unfoldable pub copy_time_of : Option ℕ → M F (Option ℕ)
  copy_time_of none = pure none
  copy_time_of (some p) = do q ← L.time p; pure (some q)

  -- `func (in *CloudShellStatus) DeepCopyInto(out *CloudShellStatus)`
  unfoldable pub copy_status : StatusAt → M F StatusAt
  unfolding copy_time_of
  copy_status s = do
    time ← copy_time_of s.last_schedule_time
    pure (record s { last_schedule_time = time })

  -- `func (in *CloudShell) DeepCopyInto(out *CloudShell)`
  unfoldable pub copy_shell : ShellAt F → M F (ShellAt F)
  unfolding copy_spec copy_status
  copy_shell s = do
    metadata ← L.object_meta s.metadata
    spec ← copy_spec s.spec
    status ← copy_status s.status
    pure (record s { metadata = metadata; spec = spec; status = status })

  -- `func (in *CloudShellList) DeepCopyInto(out *CloudShellList)`
  unfoldable pub copy_shell_list : ShellListAt F → M F (ShellListAt F)
  unfolding copy_pointer copy_items copy_shell
  copy_shell_list l = do
    metadata ← L.list_meta l.metadata
    items ← copy_pointer shell_arrays (copy_items copy_shell) l.items
    pure (record l { metadata = metadata; items = items })

  -- The functions `DeepCopy`, on pointers to the structs. Without pointers, as in a
  -- `LocalSecretReference` and a `VirtualServiceConfig`, a struct is copied by its assignment.
  unfoldable pub deep_copy_shell : Option ℕ → M F (Option ℕ)
  unfolding copy_pointer copy_shell
  deep_copy_shell p = copy_pointer shells copy_shell p

  unfoldable pub deep_copy_shell_list : Option ℕ → M F (Option ℕ)
  unfolding copy_pointer copy_shell_list
  deep_copy_shell_list p = copy_pointer shell_lists copy_shell_list p

  unfoldable pub deep_copy_spec : Option ℕ → M F (Option ℕ)
  unfolding copy_pointer copy_spec
  deep_copy_spec p = copy_pointer specs copy_spec p

  unfoldable pub deep_copy_status : Option ℕ → M F (Option ℕ)
  unfolding copy_pointer copy_status
  deep_copy_status p = copy_pointer statuses copy_status p

  unfoldable pub deep_copy_ingress_config : Option ℕ → M F (Option ℕ)
  unfolding copy_pointer copy_ingress_config
  deep_copy_ingress_config p = copy_pointer ingress_configs copy_ingress_config p

  unfoldable pub deep_copy_resource_setting : Option ℕ → M F (Option ℕ)
  unfolding copy_pointer copy_resource_setting
  deep_copy_resource_setting p = copy_pointer settings copy_resource_setting p

  unfoldable pub deep_copy_secret_reference : Option ℕ → M F (Option ℕ)
  unfolding copy_pointer
  deep_copy_secret_reference p = copy_pointer secret_references pure p

  unfoldable pub deep_copy_virtual_service_config : Option ℕ → M F (Option ℕ)
  unfolding copy_pointer
  deep_copy_virtual_service_config p = copy_pointer virtual_service_configs pure p

  -- `DeepCopyObject` of both: the interface value is nil where the pointer is.
  unfoldable pub deep_copy_shell_object : Option ℕ → M F (Option Object)
  unfolding deep_copy_shell
  deep_copy_shell_object p = do c ← deep_copy_shell p; pure (Option.map shell_object c)

  unfoldable pub deep_copy_list_object : Option ℕ → M F (Option Object)
  unfolding deep_copy_shell_list
  deep_copy_list_object p = do c ← deep_copy_shell_list p; pure (Option.map list_object c)
