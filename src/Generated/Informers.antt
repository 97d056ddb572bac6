-- ===== src/Generated/Informers.antt =====
-- pkg/generated/informers/externalversions: the factory of shared informers (factory.go, generic.go)
-- and the informer of the shells. Each operation holds the factory's lock from its start to its end,
-- so it is one step. A type, an option function and a client are named; an informer is what
-- `cache.NewSharedIndexInformer` was called with, and a serial number that tells it from any other.
pub mod Soundness
pub mod Sharing
use cloudtty.Base.{
  ℕ, zero, suc, String, ◌<>◌, Bool, true, false, List, [], ◌∷◌, ◌++◌, Option, none, some,
  if◌then◌else◌, ◌==◌,
}
use cloudtty.Base.Dict.{lookup, insert}
use cloudtty.Base.Result.{Error, failed, Result, ok, err}

pub record Informer : Type 0 where
  pub serial : ℕ
  pub kind : String
  pub namespace : String
  pub tweak_list_options : Option ℕ
  pub resync_period : ℕ

-- `sharedInformerFactory`. `running` holds the informers whose `Run` has been started in a goroutine,
-- the latest last, and `made` counts the informers that were made.
pub record Factory : Type 0 where
  pub namespace : String
  pub tweak_list_options : Option ℕ
  pub default_resync : ℕ
  pub custom_resync : List (String × ℕ)
  pub informers : List (String × Informer)
  pub started_informers : List (String × Bool)
  pub running : List Informer
  pub shutting_down : Bool
  pub made : ℕ

-- `SharedInformerOption`
abbrev pub FactoryOption : Type 0
FactoryOption = Factory → Factory

insert_all : List (String × ℕ) → List (String × ℕ) → List (String × ℕ)
insert_all [] m = m
insert_all ((k, v) ∷ config) m = insert_all config (insert k v m)

unfoldable pub with_custom_resync_config : List (String × ℕ) → FactoryOption
unfolding insert_all
with_custom_resync_config config f = record f { custom_resync = insert_all config f.custom_resync }

unfoldable pub with_tweak_list_options : Option ℕ → FactoryOption
with_tweak_list_options tweak f = record f { tweak_list_options = tweak }

unfoldable pub with_namespace : String → FactoryOption
with_namespace namespace f = record f { namespace = namespace }

unfoldable pub apply_options : List FactoryOption → Factory → Factory
apply_options [] f = f
apply_options (option ∷ options) f = apply_options options (option f)

-- `v1.NamespaceAll` is the empty text.
unfoldable pub new_shared_informer_factory_with_options : ℕ → List FactoryOption → Factory
unfolding apply_options
new_shared_informer_factory_with_options default_resync options = apply_options options record {
  namespace = "";
  tweak_list_options = none;
  default_resync = default_resync;
  custom_resync = [];
  informers = [];
  started_informers = [];
  running = [];
  shutting_down = false;
  made = 0;
}

unfoldable pub new_shared_informer_factory : ℕ → Factory
unfolding new_shared_informer_factory_with_options
new_shared_informer_factory default_resync =
    new_shared_informer_factory_with_options default_resync []

unfoldable pub new_filtered_shared_informer_factory : ℕ → String → Option ℕ → Factory
unfolding new_shared_informer_factory_with_options
new_filtered_shared_informer_factory default_resync namespace tweak =
    new_shared_informer_factory_with_options default_resync
      (with_namespace namespace ∷ with_tweak_list_options tweak ∷ [])

-- A missing key reads false.
abbrev pub is_set : Option Bool → Bool
is_set none = false
is_set (some b) = b

abbrev pub is_started : Factory → String → Bool
is_started f kind = is_set (lookup kind f.started_informers)

unfoldable pub start_informer : String → Informer → Factory → Factory
start_informer kind informer f = if is_started f kind then f else record f {
  started_informers = insert kind true f.started_informers;
  running = f.running ++ informer ∷ [];
}

-- The loop of `Start`, in the order in which the map gives its entries.
unfoldable pub start_informers : List (String × Informer) → Factory → Factory
start_informers [] f = f
start_informers ((kind, informer) ∷ informers) f =
    start_informers informers (start_informer kind informer f)

unfoldable pub start : Factory → Factory
start f = if f.shutting_down then f else start_informers f.informers f

-- `Shutdown` up to its wait for the goroutines.
unfoldable pub shutdown : Factory → Factory
shutdown f = record f { shutting_down = true }

-- The informers that `WaitForCacheSync` waits for.
unfoldable pub started : Factory → List (String × Informer) → List (String × Informer)
started f [] = []
started f ((kind, informer) ∷ informers) =
    let rest = started f informers in if is_started f kind then (kind, informer) ∷ rest else rest

sync_each : (Informer → Bool) → List (String × Informer) → List (String × Bool)
sync_each has_synced [] = []
sync_each has_synced ((kind, informer) ∷ informers) =
    (kind, has_synced informer) ∷ sync_each has_synced informers

-- `has_synced` is what `cache.WaitForCacheSync` answers for an informer.
unfoldable pub wait_for_cache_sync : (Informer → Bool) → Factory → List (String × Bool)
unfolding started sync_each
wait_for_cache_sync has_synced f = sync_each has_synced (started f f.informers)

abbrev pub period_or : ℕ → Option ℕ → ℕ
period_or default_resync none = default_resync
period_or default_resync (some period) = period

-- What a `NewInformerFunc` is for: the kind, and the namespace and the filter of its accessor.
pub record NewInformer : Type 0 where
  pub kind : String
  pub namespace : String
  pub tweak_list_options : Option ℕ

unfoldable pub make_informer : NewInformer → Factory → Informer × Factory
make_informer new f =
    let informer : Informer = record {
      serial = f.made;
      kind = new.kind;
      namespace = new.namespace;
      tweak_list_options = new.tweak_list_options;
      resync_period = period_or f.default_resync (lookup new.kind f.custom_resync);
    } in
    (informer, record f { informers = insert new.kind informer f.informers; made = suc f.made })

unfoldable pub found_or_made : Option Informer → NewInformer → Factory → Informer × Factory
unfolding make_informer
found_or_made (some informer) new f = (informer, f)
found_or_made none new f = make_informer new f

unfoldable pub informer_for : NewInformer → Factory → Informer × Factory
unfolding found_or_made
informer_for new f = found_or_made (lookup new.kind f.informers) new f

abbrev pub cloud_shell_kind : String
cloud_shell_kind = "*v1alpha1.CloudShell"

-- `f.Cloudshell().V1alpha1().CloudShells()`: the accessor takes the factory's namespace and filter.
unfoldable pub cloud_shells : Factory → NewInformer
cloud_shells f = record {
  kind = cloud_shell_kind;
  namespace = f.namespace;
  tweak_list_options = f.tweak_list_options;
}

-- `Informer()` of the accessor.
unfoldable pub shell_informer : Factory → Informer × Factory
unfolding cloud_shells informer_for
shell_informer f = informer_for (cloud_shells f) f

pub record GroupVersionResource : Type 0 where
  pub group : String
  pub version : String
  pub resource : String

abbrev no_informer : GroupVersionResource → Error
no_informer r =
    failed (
      "no informer found for "
      <> (r.group <> ("/" <> (r.version <> (", Resource=" <> r.resource)))))

-- The informer of the resource of that name.
unfoldable pub for_resource : GroupVersionResource → Factory → Result Informer × Factory
unfolding shell_informer
for_resource r f =
    if r.group == "cloudshell.cloudtty.io"
    then (if r.version == "v1alpha1"
        then (if r.resource == "cloudshells"
            then (let (informer, g) = shell_informer f in (ok informer, g))
            else (err (no_informer r), f))
        else (err (no_informer r), f))
    else (err (no_informer r), f)
