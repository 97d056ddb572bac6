-- ===== src/Base/Lists.antt =====
-- Lists over the native numbers, equality as an instance, and membership as a Boolean test.
use Prim.Native.Nat.{ℕ, zero, suc, ◌+◌}
use Prim.Native.String.{String}
use mathlib.Core.Path.{◌≡◌, refl}
use mathlib.Core.Logic.{◌↔◌, inl, inr}
use mathlib.Core.Bool.{Bool, true, false, ◌||◌}
use mathlib.Core.List.{List, [], ◌∷◌, ◌++◌}
use native.Mathlib.Omega.{arith}
use text.Mathlib.Text.{◌==◌ as str_eq}
use text.Mathlib.TextEquality.{eq_iff}
use cloudtty.Base.Tests.{Bool-cases, if◌then◌else◌}

-- Go's `==` on the values that are used as keys of a map.
pub record Eq {ℓ} (A : Type ℓ) : Type ℓ where
  pub beq : A → A → Bool
  pub beq_iff : (a b : A) → (beq a b ≡ true) ↔ (a ≡ b)

instance abbrev pub string_eq : Eq String
string_eq = record { beq = str_eq; beq_iff = eq_iff }

module _ {ℓ} {A : Type ℓ} where
  abbrev pub length : List A → ℕ
  length [] = 0
  length (x ∷ xs) = suc (length xs)

  abbrev pub take : ℕ → List A → List A
  take zero xs = []
  take (suc n) [] = []
  take (suc n) (x ∷ xs) = x ∷ take n xs

  abbrev pub drop : ℕ → List A → List A
  drop zero xs = xs
  drop (suc n) [] = []
  drop (suc n) (x ∷ xs) = drop n xs

  pub length-append : (xs ys : List A) → length (xs ++ ys) ≡ length xs + length ys
  length-append [] ys = omega arith
  length-append (x ∷ xs) ys = omega (arith, length-append xs ys)

module _ {ℓ} {A : Type ℓ} ⦃e : Eq A⦄ where
  abbrev pub contains : List A → A → Bool
  contains [] a = false
  contains (x ∷ xs) a = e.beq x a || contains xs a

  -- No item stands twice in the list.
  abbrev pub Distinct : List A → Type 0
  Distinct [] = Unit {0}
  Distinct (x ∷ xs) = (contains xs x ≡ false) × Distinct xs

  -- The list without the first occurrence of an item.
  abbrev pub erase : A → List A → List A
  erase a [] = []
  erase a (x ∷ xs) = if e.beq x a then xs else x ∷ erase a xs

  pub beq_refl : (a : A) → e.beq a a ≡ true
  beq_refl a = (e.beq_iff a a).1 refl

  pub contains-concat :
      (xs : List A) (x a : A) → contains (xs ++ x ∷ []) a ≡ (contains xs a || e.beq x a)
  contains-concat [] x a = ground arith
  contains-concat (y ∷ xs) x a = ground (arith, contains-concat xs x a)

  pub Distinct-concat :
      (xs : List A) (x : A) → Distinct xs → contains xs x ≡ false → Distinct (xs ++ x ∷ [])
  Distinct-concat [] x d h = (refl, tt)
  Distinct-concat (y ∷ xs) x (p, d) h = (
    ground (arith, contains-concat xs x y, e.beq_iff x y, e.beq_iff y x),
    Distinct-concat xs x d (ground arith),
  )

  pub contains-erase_ne :
      (xs : List A) (a b : A) → e.beq a b ≡ false → contains (erase a xs) b ≡ contains xs b
  contains-erase_ne [] a b h = refl
  contains-erase_ne (x ∷ xs) a b h =
      ground (arith, contains-erase_ne xs a b h, e.beq_iff x a, e.beq_iff x b, e.beq_iff a b)

  pub contains-erase_self : (xs : List A) (a : A) → Distinct xs → contains (erase a xs) a ≡ false
  contains-erase_self [] a d = refl
  contains-erase_self (x ∷ xs) a (p, d) = ground (arith, contains-erase_self xs a d, e.beq_iff x a)

  pub contains-erase_le :
      (xs : List A) (a b : A) → contains xs b ≡ false → contains (erase a xs) b ≡ false
  contains-erase_le [] a b h = refl
  contains-erase_le (x ∷ xs) a b h = ground (arith, contains-erase_le xs a b)

  pub contains-erase :
      (xs : List A) (a b : A)
      → Distinct xs
      → contains (erase a xs) b ≡ (if e.beq a b then false else contains xs b)
  contains-erase xs a b d = elim (Bool-cases (e.beq a b)) [
    | inl same ↦ rw (same, ← (e.beq_iff a b).0 same) (contains-erase_self xs a d)
    | inr other ↦ rw other (contains-erase_ne xs a b other)
  ]

  pub Distinct-erase : (xs : List A) (a : A) → Distinct xs → Distinct (erase a xs)
  Distinct-erase [] a d = tt
  Distinct-erase (x ∷ xs) a (p, d) =
      ground (arith, Distinct-erase xs a d, contains-erase_le xs a x p)

  pub erase_of_absent : (xs : List A) (a : A) → contains xs a ≡ false → erase a xs ≡ xs
  erase_of_absent [] a h = refl
  erase_of_absent (x ∷ xs) a h = ground (arith, erase_of_absent xs a)
