-- ===== src/Controller/Paths/Apart.antt =====
-- The routes of two shells (`SetRouteRulePath` of pkg/controllers/cloudshell_controller.go).
use Prim.Native.Char.{Char}
use text.Mathlib.TextLemmas.{
  head-eq_of_cons-eq, tail-eq_of_cons-eq, append_cancel_left, nil-append, cons-append, append-nil,
}
use cloudtty.Base.{
  String, ◌<>◌, Bool, true, false, if◌then◌else◌, ◌≡◌, ◌≢◌, refl, sym, ap, ◌∙◌, arith,
}
use cloudtty.Objects.{CloudShell}
use cloudtty.Text.{is_empty, is_slash, contains_char}
use cloudtty.Controller.Paths.{path_prefix, set_route_rule_path}

-- What follows the name in a route: nothing, or a slash first.
abbrev pub ends_name : String → Bool
ends_name String.[] = true
ends_name (String.◌∷◌ c s) = is_slash c

rest-head : (r s : String) (c : Char) → ends_name r ≡ true → r ≡ String.◌∷◌ c s → is_slash c ≡ true
rest-head r s c h e = sym (ap ends_name e) ∙ h

pub absurd_head :
    {A : Type 0} (c : Char) (s : String) (a b : A)
    → is_slash c ≡ true
    → contains_char b'/' (String.◌∷◌ c s) ≡ false
    → a ≡ b
unfolding contains_char
absurd_head c s a b h k = ground arith

pub tail-clean :
    (c : Char) (s : String)
    → contains_char b'/' (String.◌∷◌ c s) ≡ false
    → contains_char b'/' s ≡ false
unfolding contains_char
tail-clean c s h = ground arith

-- A name without a slash is determined by the text that it begins.
pub same_name :
    (a b r t : String)
    → contains_char b'/' a ≡ false
    → contains_char b'/' b ≡ false
    → ends_name r ≡ true
    → ends_name t ≡ true
    → a <> r ≡ b <> t
    → a ≡ b
same_name String.[] String.[] r t ha hb hr ht e = refl
same_name String.[] (String.◌∷◌ d b) r t ha hb hr ht e =
    absurd_head d b "" _ (rest-head r _ d hr (sym (nil-append r) ∙ e ∙ cons-append d b t)) hb
same_name (String.◌∷◌ c a) String.[] r t ha hb hr ht e =
    absurd_head c a _ "" (rest-head t _ c ht (sym (nil-append t) ∙ sym e ∙ cons-append c a r)) ha
same_name (String.◌∷◌ c a) (String.◌∷◌ d b) r t ha hb hr ht e =
    let f : String.◌∷◌ c (a <> r) ≡ String.◌∷◌ d (b <> t) =
      sym (cons-append c a r) ∙ e ∙ cons-append d b t in
    let same =
      same_name a b r t (tail-clean c a ha) (tail-clean d b hb) hr ht (tail-eq_of_cons-eq f) in
    rw (head-eq_of_cons-eq f, same) refl

-- The part of a route after the name.
rest_of : String → String
rest_of suffix = if is_empty suffix then "" else "/" <> suffix

rest_of-ends_name : (suffix : String) → ends_name (rest_of suffix) ≡ true
unfolding rest_of
rest_of-ends_name String.[] = refl
rest_of-ends_name (String.◌∷◌ c s) = ap ends_name (cons-append "/" "" (String.◌∷◌ c s))

set_route_rule_path_parts :
    (shell : CloudShell)
    → set_route_rule_path shell
      ≡ path_prefix shell.spec.path_prefix
        <> ("/" <> (shell.name <> rest_of shell.spec.path_suffix))
unfolding set_route_rule_path rest_of
set_route_rule_path_parts shell = ground (arith, append-nil shell.name)

pub set_route_rule_path-apart :
    (a b : CloudShell)
    → contains_char b'/' a.name ≡ false
    → contains_char b'/' b.name ≡ false
    → a.spec.path_prefix ≡ b.spec.path_prefix
    → a.name ≢ b.name
    → set_route_rule_path a ≢ set_route_rule_path b
set_route_rule_path-apart a b ha hb same apart e = apart (
    same_name a.name b.name _ _ ha hb (rest_of-ends_name a.spec.path_suffix)
      (rest_of-ends_name b.spec.path_suffix)
      (append_cancel_left "/" _ _ (
        append_cancel_left (path_prefix a.spec.path_prefix) _ _ (
          sym (set_route_rule_path_parts a)
          ∙ e
          ∙ set_route_rule_path_parts b
          ∙ ap (λ prefix. path_prefix prefix <> ("/" <> (b.name <> rest_of b.spec.path_suffix)))
              (sym same)))))
