-- ===== src/Generated/Listers.antt =====
-- pkg/generated/listers/cloudshell/v1alpha1/cloudshell.go: the lister of shells, on an indexer of
-- client-go.
pub mod Finding
use cloudtty.Base.{String, ◌<>◌, List, [], ◌∷◌, ◌++◌, Option, none, some}
use cloudtty.Base.Result.{Error, not_found, panic, Result, ok, err}
use cloudtty.Objects.{CloudShell}

-- What an indexer holds.
pub data Indexed : Type 0 where
  shell_object : CloudShell → Indexed
  other_object : Indexed

-- `cache.Indexer` with `cache.ListAll` and `cache.ListAllByNamespace`, which give the objects that they
-- call the function on, in that order, and their error. `S` is the type of selectors.
pub record Indexer (S : Type 0) : Type 0 where
  pub get_by_key : String → Result (Option Indexed)
  pub list_all : S → List Indexed × Option Error
  pub list_all_by_namespace : String → S → List Indexed × Option Error

-- `m.(*v1alpha1.CloudShell)`
abbrev pub assert_shell : Indexed → Result CloudShell
assert_shell (shell_object shell) = ok shell
assert_shell other_object = err panic

abbrev joined : Result CloudShell → Result (List CloudShell) → Result (List CloudShell)
joined (ok shell) (ok shells) = ok (shell ∷ shells)
joined (ok shell) (err e) = err e
joined (err e) _ = err e

-- `ret = append(ret, m.(*v1alpha1.CloudShell))` for each object.
unfoldable pub collect : List Indexed → Result (List CloudShell)
collect [] = ok []
collect (m ∷ ms) = joined (assert_shell m) (collect ms)

-- `return ret, err`, after a loop that has not panicked.
abbrev with_error :
    Result (List CloudShell) → Option Error → Result (List CloudShell × Option Error)
with_error (ok ret) e = ok (ret, e)
with_error (err p) e = err p

unfoldable pub shell_of : Result (Option Indexed) → Result CloudShell
shell_of (err e) = err e
shell_of (ok none) = err not_found
shell_of (ok (some m)) = assert_shell m

module _ {S : Type 0} where
  unfoldable pub list : Indexer S → S → Result (List CloudShell × Option Error)
  unfolding collect
  list indexer selector =
      let (objects, e) = indexer.list_all selector in with_error (collect objects) e

  unfoldable pub list_in : Indexer S → String → S → Result (List CloudShell × Option Error)
  unfolding collect
  list_in indexer namespace selector =
      let (objects, e) = indexer.list_all_by_namespace namespace selector in
      with_error (collect objects) e

  -- `CloudShells(namespace).Get(name)`
  unfoldable pub get : Indexer S → String → String → Result CloudShell
  unfolding shell_of
  get indexer namespace name = shell_of (indexer.get_by_key (namespace <> ("/" <> name)))
