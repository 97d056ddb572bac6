-- ===== src/Generated/Listers/Finding.antt =====
-- Which shell the lister finds, from the key that an informer's handler has added to the work queue.
use text.Mathlib.TextLemmas.{append_cancel_left, cons-append}
use cloudtty.Base.{
  String, ◌<>◌, true, false, ◌&&◌, List, [], ◌∷◌, Option, none, some, if◌then◌else◌, ◌==◌, ◌≡◌,
  refl, sym, ap, ◌∙◌, arith, eq_iff, eq_refl, Bool-cases, inl, inr,
}
use cloudtty.Base.Result.{not_found, Result, ok, err}
use cloudtty.Objects.{CloudShell}
use cloudtty.Text.{is_empty, contains_char}
use cloudtty.Cluster.{Env}
use cloudtty.Cluster.Monad.{World, ◌>>=◌}
use cloudtty.Controller.Paths.Apart.{same_name, ends_name}
use cloudtty.Controller.Sync.{Controller, sync_handler, sync_listed}
use cloudtty.Generated.Listers.{Indexed, shell_object, Indexer, shell_of, get}

-- The key of an object in a namespace.
abbrev pub key : String → String → String
key namespace name = namespace <> ("/" <> name)

-- The indexer holds these shells by their keys; the first of a key is the one that it was given last.
abbrev pub stored : String → List CloudShell → Option Indexed
stored k [] = none
stored k (shell ∷ shells) =
    if key shell.namespace shell.name == k then some (shell_object shell) else stored k shells

pub record Holds {S : Type 0} (indexer : Indexer S) (shells : List CloudShell) : Type 0 where
  pub by_key : (k : String) → indexer.get_by_key k ≡ ok (stored k shells)

-- The first shell of that namespace and name.
abbrev pub find : String → String → List CloudShell → Result CloudShell
find namespace name [] = err not_found
find namespace name (shell ∷ shells) =
    if shell.namespace == namespace && shell.name == name
    then ok shell
    else find namespace name shells

abbrev pub HaveNamespaces : List CloudShell → Type 0
HaveNamespaces [] = Unit {0}
HaveNamespaces (shell ∷ shells) =
    (contains_char b'/' shell.namespace ≡ false) × HaveNamespaces shells

keys_apart :
    (a b m n : String)
    → contains_char b'/' a ≡ false
    → contains_char b'/' b ≡ false
    → key a m ≡ key b n
    → (a ≡ b) × (m ≡ n)
keys_apart a b m n ha hb e =
    let first = same_name a b ("/" <> m) ("/" <> n) ha hb (ends m) (ends n) e in
    (
      first,
      append_cancel_left "/" m n
          (append_cancel_left a ("/" <> m) ("/" <> n) (e ∙ ap (λ x. x <> ("/" <> n)) (sym first))),
    )
  where
    ends : (s : String) → ends_name ("/" <> s) ≡ true
    ends s = ap ends_name (cons-append "/" "" s)

same_key :
    (a b m n : String)
    → contains_char b'/' a ≡ false
    → contains_char b'/' b ≡ false
    → (key a m == key b n) ≡ (a == b && m == n)
same_key a b m n ha hb = elim (Bool-cases (key a m == key b n)) [
  | inl e ↦
      let (first, second) = keys_apart a b m n ha hb ((eq_iff (key a m) (key b n)).0 e) in
      e ∙ sym (rw (first, second, eq_refl b, eq_refl n) refl)
  | inr e ↦ elim (Bool-cases (a == b && m == n)) [
    | inl both ↦ ground (arith, eq_iff a b, eq_iff m n, eq_iff (key a m) (key b n))
    | inr other ↦ e ∙ sym other
  ]
]

shell_of-stored :
    (namespace name : String) (shells : List CloudShell)
    → contains_char b'/' namespace ≡ false
    → HaveNamespaces shells
    → shell_of (ok (stored (key namespace name) shells)) ≡ find namespace name shells
unfolding shell_of
shell_of-stored namespace name [] h _ = refl
shell_of-stored namespace name (shell ∷ shells) h (clean, rest) = ground (
  arith,
  same_key shell.namespace namespace shell.name name clean h,
  shell_of-stored namespace name shells h rest,
)

-- The generated lister finds the shell of a namespace and a name that its indexer was given last, and
-- none where it was given none: for an indexer that holds the shells by their keys. Namespaces are
-- assumed to have no slash.
get-finds :
    {S : Type 0} (indexer : Indexer S) (shells : List CloudShell) (namespace name : String)
    → Holds indexer shells
    → contains_char b'/' namespace ≡ false
    → HaveNamespaces shells
    → get indexer namespace name ≡ find namespace name shells
unfolding get
get-finds indexer shells namespace name holds clean have =
    ap shell_of (holds.by_key (key namespace name))
    ∙ shell_of-stored namespace name shells clean have

-- The keys of client-go, as documented: of an object in a namespace, its namespace, a slash and its
-- name; and what a key of two parts is split into.
pub record KeysAreLawful (E : Env) : Type 0 where
  pub meta_key :
      (namespace name : String)
      → is_empty namespace ≡ false
      → E.meta_namespace_key namespace name ≡ key namespace name
  pub split_key :
      (namespace name : String)
      → contains_char b'/' namespace ≡ false
      → contains_char b'/' name ≡ false
      → E.split_meta_namespace_key (key namespace name) ≡ ok (namespace, name)

-- From an event to its reconcile: for the key that the handler of an event adds for a shell, the
-- controller reconciles the shell of that namespace and name that the informer's indexer was given
-- last, or, where it holds none, as for a shell that is gone. The listers are assumed to be the
-- generated one on that indexer, keys to be made and split as documented, and namespace and name to
-- have no slash.
pub sync_handler-finds :
    {S : Type 0} (E : Env) (c : Controller) (indexer : E.State → Indexer S)
    (shells : List CloudShell) (namespace name : String) (w : World E)
    → KeysAreLawful E
    → ((n m : String) (s : E.State) → E.lister_shell n m s ≡ (get (indexer s) n m, s))
    → Holds (indexer w.state) shells
    → HaveNamespaces shells
    → is_empty namespace ≡ false
    → contains_char b'/' namespace ≡ false
    → contains_char b'/' name ≡ false
    → sync_handler E c (E.meta_namespace_key namespace name) w
      ≡ sync_listed E c (find namespace name shells) w
unfolding sync_handler ◌>>=◌
sync_handler-finds E c indexer shells namespace name w K listed holds have set clean plain =
    rw
      (
        K.meta_key namespace name set,
        K.split_key namespace name clean plain,
        listed namespace name w.state,
        get-finds (indexer w.state) shells namespace name holds clean have,
      )
      refl
