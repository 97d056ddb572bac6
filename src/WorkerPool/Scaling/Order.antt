-- ===== src/WorkerPool/Scaling/Order.antt =====
-- The order in which idle workers are deleted.
use cloudtty.Base.{ℕ, ◌+◌, true, false, Option, none, some, if◌then◌else◌, ◌≡◌, ◌⊎◌, arith, ltb}
use cloudtty.Base.Int.{ltb_ℤ, eqb_ℤ}
use cloudtty.Objects.{Pod}
use cloudtty.WorkerPool.Scaling.{before, less, binding_count}

-- Times as numbers: none before all others.
abbrev rank : Option ℕ → ℕ
rank none = 0
rank (some t) = t + 1

before-rank : (s t : Option ℕ) → before s t ≡ ltb (rank s) (rank t)
unfolding before
before-rank none none = ground arith
before-rank (some s) none = ground arith
before-rank none (some t) = ground arith
before-rank (some s) (some t) = ground arith

less_lem :
    (a b : Pod)
    → less a b ≡ (
        if eqb_ℤ (binding_count a) (binding_count b)
        then ltb (rank a.creation_timestamp) (rank b.creation_timestamp)
        else ltb_ℤ (binding_count a) (binding_count b))
unfolding less
less_lem a b = ground (arith, before-rank a.creation_timestamp b.creation_timestamp)

-- The comparison that `scaleInWorkerQueue` gives to `sort.Slice` is a strict weak order, as that asks:
-- no worker is before itself, the order is transitive, and a worker that is before another is before
-- or after any third one.
pub less-IsStrictWeak :
    (a b c : Pod)
    → (less a a ≡ false)
      × ((less a b ≡ true) → (less b c ≡ true) → less a c ≡ true)
      × ((less a b ≡ true) → (less a c ≡ true) ⊎ (less c b ≡ true))
less-IsStrictWeak a b c = (
  ground (arith, less_lem a a),
  ground (arith, less_lem a b, less_lem b c, less_lem a c),
  ground (arith, less_lem a b, less_lem a c, less_lem c b),
)
