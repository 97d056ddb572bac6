-- ===== src/Text/Split.antt =====
-- When `strings.Split` undoes a join by "//".
use Prim.Native.Char.{Char}
use text.Mathlib.TextLemmas.{nil-append, cons-append}
use cloudtty.Base.{◌≡◌, refl, ap, ◌∙◌, String, ◌<>◌, Bool, true, false, ◌&&◌, not, [], ◌∷◌, arith}
use cloudtty.Text.{is_slash, split, cons_head}

-- No "//" inside.
abbrev pub has_no_cut : String → Bool
has_no_cut String.[] = true
has_no_cut (String.◌∷◌ c String.[]) = true
has_no_cut (String.◌∷◌ c (String.◌∷◌ d s)) =
    not (is_slash c && is_slash d) && has_no_cut (String.◌∷◌ d s)

-- Nor a slash at the end.
abbrev pub is_clean : String → Bool
is_clean String.[] = true
is_clean (String.◌∷◌ c String.[]) = not (is_slash c)
is_clean (String.◌∷◌ c (String.◌∷◌ d s)) =
    not (is_slash c && is_slash d) && is_clean (String.◌∷◌ d s)

not_and : (p q : Bool) → not p && q ≡ true → (p ≡ false) × (q ≡ true)
not_and p q h = ground arith

pub split_whole : (s : String) → has_no_cut s ≡ true → split s ≡ s ∷ []
unfolding split cons_head
split_whole String.[] h = refl
split_whole (String.◌∷◌ c String.[]) h = refl
split_whole (String.◌∷◌ c (String.◌∷◌ d s)) h =
    let (here, later) = not_and (is_slash c && is_slash d) _ h in
    rw (here, split_whole (String.◌∷◌ d s) later)

slash : Char
slash = "/"

slashes-append : (s : String) → "//" <> s ≡ String.◌∷◌ "/" (String.◌∷◌ "/" s)
slashes-append s =
    cons-append "/" "/" s
    ∙ ap (String.◌∷◌ "/") (cons-append "/" "" s ∙ ap (String.◌∷◌ "/") (nil-append s))

split-slashes : (s : String) → split ("//" <> s) ≡ "" ∷ split s
unfolding split
split-slashes s = rw (slashes-append s)

-- A step over a character that begins no "//".
split-cons :
    (c d : Char) (s : String)
    → is_slash c && is_slash d ≡ false
    → split (String.◌∷◌ c (String.◌∷◌ d s)) ≡ cons_head c (split (String.◌∷◌ d s))
unfolding split
split-cons c d s h = rw h

not_slash : (p : Bool) → not p ≡ true → p && true ≡ false
not_slash p h = ground arith

-- The part before the first "//", if it is clean.
pub split-append : (a s : String) → is_clean a ≡ true → split (a <> ("//" <> s)) ≡ a ∷ split s
unfolding cons_head
split-append String.[] s h = rw (nil-append ("//" <> s)) (split-slashes s)
split-append (String.◌∷◌ c String.[]) s h =
    let single : String.◌∷◌ c "" <> ("//" <> s) ≡ String.◌∷◌ c (String.◌∷◌ "/" (String.◌∷◌ "/" s)) =
      cons-append c "" ("//" <> s)
      ∙ ap (String.◌∷◌ c) (nil-append ("//" <> s) ∙ slashes-append s) in
    rw (
      single,
      split-cons c "/" (String.◌∷◌ "/" s) (not_slash (is_slash c) h),
      ← slashes-append s,
      split-slashes s,
    )
split-append (String.◌∷◌ c (String.◌∷◌ d a)) s h =
    let (here, later) = not_and (is_slash c && is_slash d) _ h in
    rw (
      cons-append c (String.◌∷◌ d a),
      cons-append d a,
      split-cons c d (a <> ("//" <> s)) here,
      ← cons-append d a ("//" <> s),
      split-append (String.◌∷◌ d a) s later,
    )
