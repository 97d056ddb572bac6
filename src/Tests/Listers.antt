-- ===== src/Tests/Listers.antt =====
-- The theorems on the lister of shells, on a cluster whose listers read an indexer.
use Prim.Native.Char.{Char}
use text.Mathlib.TextLemmas.{nil-append, cons-append}
use cloudtty.Base.{
  String, ◌<>◌, false, List, [], ◌∷◌, none, some, if◌then◌else◌, ◌≡◌, refl, ap, ◌∙◌, Bool-cases,
  inl, inr,
}
use cloudtty.Base.Result.{ok}
use cloudtty.Objects.{CloudShell}
use cloudtty.Text.{is_slash, contains_char}
use cloudtty.Cluster.{Env}
use cloudtty.Cluster.Monad.{World}
use cloudtty.Queue.{new_queue}
use cloudtty.Controller.Sync.{sync_handler, sync_listed}
use cloudtty.Controller.Paths.Apart.{absurd_head, tail-clean}
use cloudtty.Generated.Listers.{Indexer, get}
use cloudtty.Generated.Listers.Finding.{key, stored, find, KeysAreLawful, sync_handler-finds}
use cloudtty.Tests.Demo.{Demo, demo}
use cloudtty.Tests.Shells.{shell, controller}

abbrev longer : Char → String × String → String × String
longer c (before, after) = (String.◌∷◌ c before, after)

-- The texts before and after the first slash.
abbrev cut : String → String × String
cut String.[] = ("", "")
cut (String.◌∷◌ c s) = let rest = longer c (cut s) in if is_slash c then ("", s) else rest

cut-key :
    (namespace name : String)
    → contains_char b'/' namespace ≡ false
    → cut (key namespace name) ≡ (namespace, name)
unfolding contains_char
cut-key String.[] name h =
    ap cut (nil-append ("/" <> name) ∙ cons-append "/" "" name)
    ∙ ap (λ x. ("", x)) (nil-append name)
cut-key (String.◌∷◌ c s) name h =
    ap cut (cons-append c s ("/" <> name)) ∙ elim (Bool-cases (is_slash c)) [
      | inl e ↦ absurd_head c s _ _ e h
      | inr e ↦ rw (e, cut-key s name (tail-clean c s h)) refl
    ]

abbrev held : Demo → List CloudShell
held s = elim s.shell [ none ↦ [] | some found ↦ found ∷ [] ]

abbrev indexer : Demo → Indexer (Unit {0})
indexer s = record {
  get_by_key = λ k. ok (stored k (held s));
  list_all = λ _. ([], none);
  list_all_by_namespace = λ _ _. ([], none);
}

abbrev indexed : Env
indexed = record demo {
  lister_shell = λ namespace name s. (get (indexer s) namespace name, s);
  split_meta_namespace_key = λ k. ok (cut k);
}

indexed-KeysAreLawful : KeysAreLawful indexed
indexed-KeysAreLawful = record {
  meta_key = λ namespace name set. refl;
  split_key = λ namespace name clean plain. ap ok (cut-key namespace name clean);
}

abbrev start : World indexed
start = record {
  worker_queue = new_queue;
  request_queue = new_queue;
  events = [];
  state = record { time = 100; conflicts = 0; pod = none; shell = some shell };
}

sync_handler-finds_example :
    sync_handler indexed controller (indexed.meta_namespace_key "default" "shell") start
    ≡ sync_listed indexed controller (find "default" "shell" (shell ∷ [])) start
unfolding contains_char
sync_handler-finds_example =
    sync_handler-finds indexed controller indexer (shell ∷ []) "default" "shell" start
      indexed-KeysAreLawful (λ n m s. refl) (record { by_key = λ k. refl }) (refl, tt) refl refl
      refl
