-- ===== src/Generated/DeepCopy/Heap.antt =====
-- The heap of the deep copies: what its cells hold, and reading and allocating them.
use mathlib.Core.Option
use cloudtty.Base.{ℕ, suc, ◌≡◌, refl, String, Bool, List, Option, none, some, nat_eq, if◌then◌else◌}
use cloudtty.Base.Dict.{Dict}
use cloudtty.Base.Int.{ℤ}
use cloudtty.Objects.{VirtualServiceConfig}

pub record IngressConfigAt : Type 0 where
  pub ingress_name : String
  pub namespace : String
  pub ingress_class_name : String
  pub annotations : Option ℕ
  pub host : String

pub record SpecAt : Type 0 where
  pub secret_ref : Option ℕ
  pub image : String
  pub once : Bool
  pub command_action : String
  pub ttl_seconds_after_started : Option ℕ
  pub cleanup : Bool
  pub expose_mode : String
  pub ingress_config : Option ℕ
  pub virtual_service_config : Option ℕ
  pub path_prefix : String
  pub path_suffix : String
  pub url_arg : Bool
  pub env : Option ℕ
  pub ttyd_client_options : Option ℕ

pub record StatusAt : Type 0 where
  pub phase : String
  pub access_url : String
  pub last_schedule_time : Option ℕ

pub record SettingAt : Type 0 where
  pub limits : Option ℕ
  pub requests : Option ℕ

-- `metav1.TypeMeta`
pub record TypeMeta : Type 0 where
  pub kind : String
  pub api_version : String

pub record ShellAt (F : Type 0) : Type 0 where
  pub type_meta : TypeMeta
  pub metadata : F
  pub spec : SpecAt
  pub status : StatusAt

pub record ShellListAt (F : Type 0) : Type 0 where
  pub type_meta : TypeMeta
  pub metadata : F
  pub items : Option ℕ

pub data Cell (F : Type 0) : Type 0 where
  secret_reference_cell : String → Cell F
  number_cell : ℤ → Cell F
  ingress_config_cell : IngressConfigAt → Cell F
  virtual_service_config_cell : VirtualServiceConfig → Cell F
  array_cell : List F → Cell F
  string_map_cell : Dict → Cell F
  quantity_map_cell : List (String × F) → Cell F
  setting_cell : SettingAt → Cell F
  spec_cell : SpecAt → Cell F
  status_cell : StatusAt → Cell F
  shell_cell : ShellAt F → Cell F
  shell_list_cell : ShellListAt F → Cell F
  shell_array_cell : List (ShellAt F) → Cell F
  other_cell : F → Cell F

-- `next` is the address that is allocated next.
pub record Heap (F : Type 0) : Type 0 where
  pub next : ℕ
  pub cell : ℕ → Option (Cell F)

-- `none` is a fault: a read through an address where no cell of that kind is.
abbrev pub M : Type 0 → Type 0 → Type 0
M F A = Heap F → Option (A × Heap F)

module _ {F : Type 0} where
  unfoldable pub pure : {A : Type 0} → A → M F A
  pure a h = some (a, h)

  infixl 5 ◌>>=◌
  unfoldable pub ◌>>=◌ : {A B : Type 0} → M F A → (A → M F B) → M F B
  ◌>>=◌ m f h = elim (m h) [ none ↦ none | some (a, g) ↦ f a g ]

-- The cells that hold an `A`.
pub record Kind (F A : Type 0) : Type 0 where
  pub wrap : A → Cell F
  pub unwrap : Cell F → Option A
  pub same : (a : A) → unwrap (wrap a) ≡ some a

module _ {F A : Type 0} where
  abbrev pub read_cell : Kind F A → Option (Cell F) → Option A
  read_cell kind none = none
  read_cell kind (some c) = kind.unwrap c

  -- `*p`
  abbrev pub peek : Kind F A → ℕ → Heap F → Option A
  peek kind p h = read_cell kind (h.cell p)

  unfoldable pub load : Kind F A → ℕ → M F A
  load kind p h = Option.map (λ a. (a, h)) (peek kind p h)

  -- `new(T)`, with the contents that it is then given.
  unfoldable pub new : Kind F A → A → M F ℕ
  new kind a h = some (
    h.next,
    record {
      next = suc h.next;
      cell = λ q. if nat_eq h.next q then some (kind.wrap a) else h.cell q;
    },
  )

module _ {F : Type 0} where
  abbrev secret_reference_of : Cell F → Option String
  secret_reference_of (secret_reference_cell a) = some a
  secret_reference_of _ = none

  abbrev pub secret_references : Kind F String
  secret_references = record {
    wrap = secret_reference_cell;
    unwrap = secret_reference_of;
    same = λ a. refl;
  }

  abbrev number_of : Cell F → Option ℤ
  number_of (number_cell a) = some a
  number_of _ = none

  abbrev pub numbers : Kind F ℤ
  numbers = record { wrap = number_cell; unwrap = number_of; same = λ a. refl }

  abbrev ingress_config_of : Cell F → Option IngressConfigAt
  ingress_config_of (ingress_config_cell a) = some a
  ingress_config_of _ = none

  abbrev pub ingress_configs : Kind F IngressConfigAt
  ingress_configs = record {
    wrap = ingress_config_cell;
    unwrap = ingress_config_of;
    same = λ a. refl;
  }

  abbrev virtual_service_config_of : Cell F → Option VirtualServiceConfig
  virtual_service_config_of (virtual_service_config_cell a) = some a
  virtual_service_config_of _ = none

  abbrev pub virtual_service_configs : Kind F VirtualServiceConfig
  virtual_service_configs = record {
    wrap = virtual_service_config_cell;
    unwrap = virtual_service_config_of;
    same = λ a. refl;
  }

  abbrev array_of : Cell F → Option (List F)
  array_of (array_cell a) = some a
  array_of _ = none

  abbrev pub arrays : Kind F (List F)
  arrays = record { wrap = array_cell; unwrap = array_of; same = λ a. refl }

  abbrev string_map_of : Cell F → Option Dict
  string_map_of (string_map_cell a) = some a
  string_map_of _ = none

  abbrev pub string_maps : Kind F Dict
  string_maps = record { wrap = string_map_cell; unwrap = string_map_of; same = λ a. refl }

  abbrev quantity_map_of : Cell F → Option (List (String × F))
  quantity_map_of (quantity_map_cell a) = some a
  quantity_map_of _ = none

  abbrev pub quantity_maps : Kind F (List (String × F))
  quantity_maps = record { wrap = quantity_map_cell; unwrap = quantity_map_of; same = λ a. refl }

  abbrev setting_of : Cell F → Option SettingAt
  setting_of (setting_cell a) = some a
  setting_of _ = none

  abbrev pub settings : Kind F SettingAt
  settings = record { wrap = setting_cell; unwrap = setting_of; same = λ a. refl }

  abbrev spec_of : Cell F → Option SpecAt
  spec_of (spec_cell a) = some a
  spec_of _ = none

  abbrev pub specs : Kind F SpecAt
  specs = record { wrap = spec_cell; unwrap = spec_of; same = λ a. refl }

  abbrev status_of : Cell F → Option StatusAt
  status_of (status_cell a) = some a
  status_of _ = none

  abbrev pub statuses : Kind F StatusAt
  statuses = record { wrap = status_cell; unwrap = status_of; same = λ a. refl }

  abbrev shell_of : Cell F → Option (ShellAt F)
  shell_of (shell_cell a) = some a
  shell_of _ = none

  abbrev pub shells : Kind F (ShellAt F)
  shells = record { wrap = shell_cell; unwrap = shell_of; same = λ a. refl }

  abbrev shell_list_of : Cell F → Option (ShellListAt F)
  shell_list_of (shell_list_cell a) = some a
  shell_list_of _ = none

  abbrev pub shell_lists : Kind F (ShellListAt F)
  shell_lists = record { wrap = shell_list_cell; unwrap = shell_list_of; same = λ a. refl }

  abbrev shell_array_of : Cell F → Option (List (ShellAt F))
  shell_array_of (shell_array_cell a) = some a
  shell_array_of _ = none

  abbrev pub shell_arrays : Kind F (List (ShellAt F))
  shell_arrays = record { wrap = shell_array_cell; unwrap = shell_array_of; same = λ a. refl }

  abbrev other_of : Cell F → Option F
  other_of (other_cell a) = some a
  other_of _ = none

  abbrev pub others : Kind F F
  others = record { wrap = other_cell; unwrap = other_of; same = λ a. refl }
