-- ===== src/Base/Result.antt =====
-- Go's errors as values.
use Prim.Native.String.{String}
use mathlib.Core.Bool.{Bool, true, false}

-- The kinds of error that the code tells apart, and the ones that it makes. `panic` is a crash of the
-- process, at a nil pointer or an index out of range.
pub data Error : Type 0 where
  not_found conflict no_worker panic : Error
  failed : String → Error
  wrapped : String → Error → Error

pub data Result {ℓ} (A : Type ℓ) : Type ℓ where
  ok : A → Result A
  err : Error → Result A

-- `apierrors.IsNotFound`
abbrev pub is_not_found : Error → Bool
is_not_found not_found = true
is_not_found _ = false
