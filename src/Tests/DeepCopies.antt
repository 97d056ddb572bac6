-- ===== src/Tests/DeepCopies.antt =====
-- The theorems on the deep copies of the API's structs.
use cloudtty.Base.{
  ℕ, zero, suc, ◌≡◌, refl, String, true, false, List, [], ◌∷◌, Option, none, some, length, arith,
}
use cloudtty.Generated.DeepCopy.Heap.{
  pure, Heap, Cell, string_map_cell, ingress_config_cell, array_cell, other_cell, shell_cell,
  others, shells,
}
use cloudtty.Generated.DeepCopy.Copied.{give, ◌then◌, IsSound}
use cloudtty.Generated.DeepCopy.Rules.{
  plain-IsDeepCopy, at-IsDeepCopy, read_at, read_pointer, read_entries, read_items,
}
use cloudtty.Generated.DeepCopy.Views.{
  Views, Shell, read_shell, read_spec, read_status, read_time, read_ingress_config, read_strings,
}
use cloudtty.Generated.DeepCopy.Structs.{IsLawful}
use cloudtty.Generated.DeepCopy.Isolation.{deep_copy_shell_isolated, write_all}
use cloudtty.Generated.DeepCopy.{Library, copy_at, deep_copy_shell}

-- A value of another package: a name and a value, or a time.
data Value : Type 0 where
  entry : String → String → Value
  instant : ℕ → Value

abbrev name_of : Value → String
name_of (entry name _) = name
name_of (instant _) = ""

abbrev entry_of : Value → String × String
entry_of (entry name contents) = (name, contents)
entry_of (instant _) = ("", "")

abbrev time_of : Value → ℕ
time_of (instant t) = t
time_of (entry _ _) = 0

abbrev library : Library Value
library = record {
  object_meta = pure;
  list_meta = pure;
  env_var = pure;
  quantity = pure;
  time = copy_at others pure;
}

abbrev views : Views Value String String
views = record {
  object_meta = λ x. give (name_of x);
  list_meta = λ x. give (name_of x);
  env_var = λ x. give (entry_of x);
  quantity = λ x. give (name_of x);
  time = read_at others λ x. give (time_of x);
}

library-IsLawful : IsLawful library views
library-IsLawful = record {
  object_meta_copied = plain-IsDeepCopy name_of;
  list_meta_copied = plain-IsDeepCopy name_of;
  env_var_copied = plain-IsDeepCopy entry_of;
  quantity_copied = plain-IsDeepCopy name_of;
  time_copied = at-IsDeepCopy (plain-IsDeepCopy time_of) others;
}

abbrev nth : List (Cell Value) → ℕ → Option (Cell Value)
nth [] p = none
nth (c ∷ cells) zero = some c
nth (c ∷ cells) (suc p) = nth cells p

abbrev heap_of : List (Cell Value) → Heap Value
heap_of cells = record { next = length cells; cell = nth cells }

heap_of-IsSound : (cells : List (Cell Value)) → IsSound (heap_of cells)
heap_of-IsSound [] p c e = cc
heap_of-IsSound (d ∷ cells) zero c e = omega arith
heap_of-IsSound (d ∷ cells) (suc p) c e = omega (arith, heap_of-IsSound cells p c e)

-- A shell at the address 4, with an ingress configuration that has annotations, a variable and the time
-- of a schedule.
abbrev cells : List (Cell Value)
cells =
    string_map_cell (("class", "nginx") ∷ [])
    ∷ ingress_config_cell record {
      ingress_name = "shells";
      namespace = "team";
      ingress_class_name = "";
      annotations = some 0;
      host = "";
    }
    ∷ array_cell (entry "LANG" "C" ∷ [])
    ∷ other_cell (instant 7)
    ∷ shell_cell record {
      type_meta = record { kind = "CloudShell"; api_version = "v1alpha1" };
      metadata = entry "mine" "";
      spec = record {
        secret_ref = none;
        image = "bash";
        once = true;
        command_action = "bash";
        ttl_seconds_after_started = none;
        cleanup = false;
        expose_mode = "Ingress";
        ingress_config = some 1;
        virtual_service_config = none;
        path_prefix = "";
        path_suffix = "";
        url_arg = false;
        env = some 2;
        ttyd_client_options = some 0;
      };
      status = record { phase = "Ready"; access_url = ""; last_schedule_time = some 3 };
    }
    ∷ []

abbrev contents : Shell String
contents = record {
  type_meta = record { kind = "CloudShell"; api_version = "v1alpha1" };
  metadata = "mine";
  spec = record {
    secret_ref = none;
    image = "bash";
    once = true;
    command_action = "bash";
    ttl_seconds_after_started = none;
    cleanup = false;
    expose_mode = "Ingress";
    ingress_config = some record {
      ingress_name = "shells";
      namespace = "team";
      ingress_class_name = "";
      annotations = some (("class", "nginx") ∷ []);
      host = "";
    };
    virtual_service_config = none;
    path_prefix = "";
    path_suffix = "";
    url_arg = false;
    env = ("LANG", "C") ∷ [];
    ttyd_client_options = some (("class", "nginx") ∷ []);
  };
  status = record { phase = "Ready"; access_url = ""; last_schedule_time = some 7 };
}

is_read : read_pointer shells (read_shell views) (some 4) (heap_of cells) ≡ some (some contents)
unfolding read_pointer read_at read_shell read_spec read_status read_time read_ingress_config
    read_strings read_entries read_items give ◌then◌
is_read = refl

-- The annotations are emptied, in the original and in the copy.
deep_copy_shell_isolated_example :
    (q : Option ℕ) × (g : Heap Value) × (deep_copy_shell library (some 4) (heap_of cells)
      ≡ some (q, g))
    × (read_pointer shells (read_shell views) q (write_all ((0, string_map_cell []) ∷ []) g)
        ≡ some (some contents))
    × (read_pointer shells (read_shell views) (some 4) (write_all ((5, string_map_cell []) ∷ []) g)
        ≡ some (some contents))
deep_copy_shell_isolated_example =
    deep_copy_shell_isolated library views (some 4) (heap_of cells) (some contents)
      ((0, string_map_cell []) ∷ []) ((5, string_map_cell []) ∷ []) library-IsLawful
      (heap_of-IsSound cells) is_read (omega arith, tt) (omega arith, tt)
