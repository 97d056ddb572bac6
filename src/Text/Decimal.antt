-- ===== src/Text/Decimal.antt =====
-- `fmt.Sprint` of an int64, and `strconv.ParseInt(s, 10, 32)`.
use Prim.Native.Char.{Char, code}
use native.Mathlib.Nat.{pow-suc}
use cloudtty.Base.{
  ◌≡◌, refl, ℕ, zero, suc, ◌+◌, ◌-◌, ◌*◌, ◌/◌, ◌%◌, ◌^◌, ◌<◌, String, ◌<>◌, Bool, true, false, ◌&&◌,
  if◌then◌else◌, nat_eq, leb, ltb, arith, inl, inr, Bool-cases, ◌∙◌, ◌≢◌, nat_eq_iff, lt→ltb, ap,
}
use cloudtty.Base.Int.{ℤ, pos, negsuc}

digit : ℕ → Char
digit zero = "0"
digit (suc zero) = "1"
digit (suc (suc zero)) = "2"
digit (suc (suc (suc zero))) = "3"
digit (suc (suc (suc (suc zero)))) = "4"
digit (suc (suc (suc (suc (suc zero))))) = "5"
digit (suc (suc (suc (suc (suc (suc zero)))))) = "6"
digit (suc (suc (suc (suc (suc (suc (suc zero))))))) = "7"
digit (suc (suc (suc (suc (suc (suc (suc (suc zero)))))))) = "8"
digit _ = "9"

-- The digits of n before the text acc. An int64 has 19 digits at most, so 20 rounds are enough.
show_from : ℕ → ℕ → String → String
show_from zero n acc = acc
show_from (suc f) n acc =
    let longer = String.◌∷◌ (digit (n % 10)) acc in
    let rest = show_from f (n / 10) longer in if nat_eq (n / 10) 0 then longer else rest

unfoldable pub show_int : ℤ → String
unfolding show_from digit
show_int (pos n) = show_from 20 n ""
show_int (negsuc n) = "-" <> show_from 20 (n + 1) ""

-- What `strconv.ParseUint(s, 10, 32)` finds.
pub data Parsed : Type 0 where
  value : ℕ → Parsed
  syntax_error range_error : Parsed

is_digit : ℕ → Bool
is_digit c = leb b'0' c && leb c b'9'

parse_digits : ℕ → String → Parsed
parse_digits n String.[] = value n
parse_digits n (String.◌∷◌ c s) =
    let m = n * 10 + (code c - b'0') in
    let rest = parse_digits m s in
    if is_digit (code c) then if ltb (2 ^ 32 - 1) m then range_error else rest else syntax_error

parse_uint : String → Parsed
unfolding parse_digits is_digit
parse_uint String.[] = syntax_error
parse_uint (String.◌∷◌ c s) = parse_digits 0 (String.◌∷◌ c s)

-- The value, and whether the error is nil. A value out of range is cut to the nearest int32.
signed : Bool → Parsed → ℤ × Bool
signed minus syntax_error = (pos 0, false)
signed true range_error = (negsuc (2 ^ 31 - 1), false)
signed false range_error = (pos (2 ^ 31 - 1), false)
signed true (value zero) = (pos 0, true)
signed true (value (suc n)) =
    if ltb (2 ^ 31) (suc n) then (negsuc (2 ^ 31 - 1), false) else (negsuc n, true)
signed false (value n) = if ltb n (2 ^ 31) then (pos n, true) else (pos (2 ^ 31 - 1), false)

unfoldable pub parse_int : String → ℤ × Bool
unfolding parse_uint signed
parse_int String.[] = (pos 0, false)
parse_int (String.◌∷◌ c s) =
    if nat_eq (code c) b'-'
    then signed true (parse_uint s)
    else if nat_eq (code c) b'+'
    then signed false (parse_uint s)
    else signed false (parse_uint (String.◌∷◌ c s))

code-digit : (d : ℕ) → d < 10 → code (digit d) ≡ d + b'0'
unfolding digit
code-digit zero h = refl
code-digit (suc zero) h = refl
code-digit (suc (suc zero)) h = refl
code-digit (suc (suc (suc zero))) h = refl
code-digit (suc (suc (suc (suc zero)))) h = refl
code-digit (suc (suc (suc (suc (suc zero))))) h = refl
code-digit (suc (suc (suc (suc (suc (suc zero)))))) h = refl
code-digit (suc (suc (suc (suc (suc (suc (suc zero))))))) h = refl
code-digit (suc (suc (suc (suc (suc (suc (suc (suc zero)))))))) h = refl
code-digit (suc (suc (suc (suc (suc (suc (suc (suc (suc zero))))))))) h = refl
code-digit (suc (suc (suc (suc (suc (suc (suc (suc (suc (suc d)))))))))) h = absurd (omega arith)

-- A further digit.
parse_digits-digit :
    (m d : ℕ) (acc : String)
    → d < 10
    → m * 10 + d < 2 ^ 32
    → parse_digits m (String.◌∷◌ (digit d) acc) ≡ parse_digits (m * 10 + d) acc
unfolding parse_digits is_digit
parse_digits-digit m d acc h small =
    let same : d + b'0' - b'0' ≡ d = omega arith in rw (code-digit d h, same) (ground arith)

last_digit :
    (n : ℕ) (acc : String)
    → n / 10 ≡ 0
    → n < 2 ^ 32
    → parse_digits 0 (String.◌∷◌ (digit (n % 10)) acc) ≡ parse_digits n acc
last_digit n acc last small =
    parse_digits-digit 0 (n % 10) acc (omega arith) (omega arith)
    ∙ ap (λ k. parse_digits k acc) (omega arith)

ne_of_test : (a b : ℕ) → nat_eq a b ≡ false → a ≢ b
ne_of_test a b h = ground arith

-- Parsing the digits that are printed in front of acc goes on at acc with the number.
parse_digits-show_from :
    (f n : ℕ) (acc : String)
    → n < 10 ^ suc f
    → n < 2 ^ 32
    → parse_digits 0 (show_from (suc f) n acc) ≡ parse_digits n acc
unfolding show_from
parse_digits-show_from zero n acc h small = elim (Bool-cases (nat_eq (n / 10) 0)) [
  | inl last ↦ rw last (last_digit n acc ((nat_eq_iff _ _).0 last) small)
  | inr more ↦ absurd (omega (arith, ne_of_test _ _ more))
]
parse_digits-show_from (suc f) n acc h small = elim (Bool-cases (nat_eq (n / 10) 0)) [
  | inl last ↦ rw last (last_digit n acc ((nat_eq_iff _ _).0 last) small)
  | inr more ↦
      rw
        (
          more,
          parse_digits-show_from f (n / 10) (String.◌∷◌ (digit (n % 10)) acc)
              (omega (arith, h, pow-suc 10 (suc f))) (omega arith),
        )
        (parse_digits-digit (n / 10) (n % 10) acc (omega arith) (omega arith)
          ∙ ap (λ k. parse_digits k acc) (omega arith))
]

abbrev begins_with_digit : String → Bool
begins_with_digit String.[] = false
begins_with_digit (String.◌∷◌ c s) = is_digit (code c)

is_digit-digit : (d : ℕ) → d < 10 → is_digit (code (digit d)) ≡ true
unfolding is_digit
is_digit-digit d h = rw (code-digit d h) (ground arith)

show_from-begins_with_digit :
    (f n : ℕ) (acc : String) → begins_with_digit (show_from (suc f) n acc) ≡ true
unfolding show_from
show_from-begins_with_digit zero n acc = elim (Bool-cases (nat_eq (n / 10) 0)) [
  | inl last ↦ rw last (is_digit-digit (n % 10) (omega arith))
  | inr more ↦ rw more (is_digit-digit (n % 10) (omega arith))
]
show_from-begins_with_digit (suc f) n acc = elim (Bool-cases (nat_eq (n / 10) 0)) [
  | inl last ↦ rw last (is_digit-digit (n % 10) (omega arith))
  | inr more ↦ rw more (show_from-begins_with_digit f (n / 10) _)
]

parse_int-digits :
    (s : String) → begins_with_digit s ≡ true → parse_int s ≡ signed false (parse_digits 0 s)
unfolding parse_int is_digit
parse_int-digits String.[] h = cc
parse_int-digits (String.◌∷◌ c s) h = ground arith

signed-nil : (n : ℕ) → n < 2 ^ 31 → signed false (parse_digits n "") ≡ (pos n, true)
unfolding signed parse_digits
signed-nil n h = rw (lt→ltb n (2 ^ 31) h)

-- `ParseInt` reads back any number below 2^31 that `Sprint` prints.
pub parse_int-show_int : (n : ℕ) → n < 2 ^ 31 → parse_int (show_int (pos n)) ≡ (pos n, true)
unfolding show_int
parse_int-show_int n h =
    rw
      (
        parse_int-digits _ (show_from-begins_with_digit 19 n ""),
        parse_digits-show_from 19 n "" (omega arith) (omega arith),
      )
      (signed-nil n h)

parse_tests :
    (parse_int "" ≡ (pos 0, false))
    × (parse_int "-12" ≡ (negsuc 11, true))
    × (parse_int "2147483648" ≡ (pos 2147483647, false))
    × (parse_int "99999999999x" ≡ (pos 2147483647, false))
    × (parse_int "12x" ≡ (pos 0, false))
    × (show_int (pos 120) ≡ "120")
    × (show_int (negsuc 4) ≡ "-5")
unfolding parse_int show_int
parse_tests = (refl, refl, refl, refl, refl, refl, refl)
