-- ===== src/Text.antt =====
-- What the code uses of Go's packages strings, strconv and fmt.
pub mod Split
pub mod Decimal
use Prim.Native.Char.{Char, code}
use Prim.Native.String.{[] as nil, ◌∷◌ as ◌:>◌}
use cloudtty.Base.{
  ◌≡◌, refl, ℕ, zero, suc, ◌+◌, ◌-◌, ◌*◌, ◌/◌, ◌%◌, String, ◌<>◌, Bool, true, false, ◌||◌, ◌&&◌,
  List, [], ◌∷◌, if◌then◌else◌, nat_eq, leb,
}

-- `len(s) == 0`
abbrev pub is_empty : String → Bool
is_empty String.[] = true
is_empty (String.◌∷◌ c s) = false

-- `strings.Contains(s, c)` for a text c of one character.
unfoldable pub contains_char : ℕ → String → Bool
contains_char n String.[] = false
contains_char n (String.◌∷◌ c s) = nat_eq (code c) n || contains_char n s

-- `strings.Join(parts, sep)`
unfoldable pub join : String → List String → String
join sep [] = ""
join sep (x ∷ []) = x
join sep (x ∷ (y ∷ ys)) = x <> sep <> join sep (y ∷ ys)

-- The first part is longer by a character.
cons_head : Char → List String → List String
cons_head c [] = String.◌∷◌ c "" ∷ []
cons_head c (x ∷ xs) = String.◌∷◌ c x ∷ xs

abbrev pub is_slash : Char → Bool
is_slash c = nat_eq (code c) b'/'

-- `strings.Split(s, "//")`
unfoldable pub split : String → List String
unfolding cons_head
split String.[] = "" ∷ []
split (String.◌∷◌ c String.[]) = String.◌∷◌ c "" ∷ []
split (String.◌∷◌ c (String.◌∷◌ d s)) =
    let cut = "" ∷ split s in
    let longer = cons_head c (split (String.◌∷◌ d s)) in
    if is_slash c && is_slash d then cut else longer

split_example : split "ns//img:v1/x//pod" ≡ "ns" ∷ "img:v1/x" ∷ "pod" ∷ []
unfolding split
split_example = refl

-- `len` and the cuts of a text whose characters are single bytes.
abbrev pub text_length : String → ℕ
text_length String.[] = 0
text_length (String.◌∷◌ c s) = suc (text_length s)

abbrev pub text_take : ℕ → String → String
text_take zero s = ""
text_take (suc n) String.[] = ""
text_take (suc n) (String.◌∷◌ c s) = String.◌∷◌ c (text_take n s)

abbrev pub text_drop : ℕ → String → String
text_drop zero s = s
text_drop (suc n) String.[] = ""
text_drop (suc n) (String.◌∷◌ c s) = text_drop n s

-- `strings.HasSuffix(s, "/")`
unfoldable pub ends_in_slash : String → Bool
ends_in_slash String.[] = false
ends_in_slash (String.◌∷◌ c String.[]) = is_slash c
ends_in_slash (String.◌∷◌ c (String.◌∷◌ d s)) = ends_in_slash (String.◌∷◌ d s)
