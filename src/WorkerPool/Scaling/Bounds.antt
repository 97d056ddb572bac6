-- ===== src/WorkerPool/Scaling/Bounds.antt =====
-- How many idle workers `scaleInWorkerQueue` deletes, and when it panics.
use cloudtty.Base.{
  ℕ, zero, suc, ◌+◌, ◌-◌, ◌*◌, ◌≤◌, ◌<◌, List, [], ◌∷◌, length, take, lt→ltb, ltb, false, ◌≡◌, refl,
  arith,
}
use cloudtty.Objects.{Pod}
use cloudtty.Cluster.{Env}
use cloudtty.Cluster.Monad.{M, ◌>>=◌, ◌>>◌, pure, attempt}
use cloudtty.WorkerPool.Creation.{delete_worker}
use cloudtty.WorkerPool.Lending.{Pool}
use cloudtty.WorkerPool.Scaling.{scale_number, less, delete_first, forget_deleted, shrink}

-- The number of deletions is three quarters of the surplus, rounded to the nearest and a half up, so
-- at least the core limit of idle workers stays, and of a surplus at least one worker goes.
pub scale_number_bounds :
    (idle core : ℕ)
    → core < idle
    → (scale_number idle core + core ≤ idle)
      × (0 < scale_number idle core)
      × ((idle - core) * 3 < scale_number idle core * 4 + 2)
      × (scale_number idle core * 4 ≤ (idle - core) * 3 + 2)
unfolding scale_number
scale_number_bounds idle core h = (omega arith, omega arith, omega arith, omega arith)

le→not_ltb : (a b : ℕ) → a ≤ b → ltb b a ≡ false
le→not_ltb a b h = ground arith

module _ (E : Env) where
  -- Deleting each of the workers, in order.
  pub delete_each : List Pod → M E (Unit {0})
  delete_each [] = pure tt
  delete_each (worker ∷ rest) = do
    outcome ← attempt (delete_worker E worker)
    forget_deleted E worker outcome
    delete_each rest

  delete_first-take :
      (n : ℕ) (idle : List Pod)
      → n ≤ length idle
      → delete_first E n idle ≡ delete_each (take n idle)
  unfolding delete_first delete_each
  delete_first-take zero idle h = refl
  delete_first-take (suc n) [] h = absurd (omega arith)
  delete_first-take (suc n) (worker ∷ idle) h = rw (delete_first-take n idle (omega arith))

  -- With more idle workers than the core limit, exactly the first workers of the sorted list are
  -- deleted, as many as `scale_number` says; no index is out of range. The sort is assumed to keep
  -- the number of workers.
  pub shrink-take :
      (pool : Pool) (idle : List Pod)
      → length (E.sort less idle) ≡ length idle
      → pool.core_worker_limit < length idle
      → shrink E pool idle
        ≡ delete_each (take (scale_number (length idle) pool.core_worker_limit) (E.sort less idle))
  unfolding shrink
  shrink-take pool idle kept over =
      rw (lt→ltb _ _ over) (delete_first-take _ _ (omega (arith, (scale_number_bounds _ _ over).0)))

  -- The last part of `scaleInWorkerQueue`: up to the core limit nothing is done. Beyond it exactly the
  -- first n workers of the sorted list are deleted, for an n of at least 1 that leaves the core limit of
  -- idle workers and is three quarters of the surplus, rounded to the nearest and a half up; no index
  -- is out of range. The sort is assumed to keep the number of workers.
  pub shrink_keeps_core :
      (pool : Pool) (idle : List Pod)
      → length (E.sort less idle) ≡ length idle
      → (length idle ≤ pool.core_worker_limit → shrink E pool idle ≡ pure tt)
        × (pool.core_worker_limit < length idle
            → (n : ℕ) × (shrink E pool idle ≡ delete_each (take n (E.sort less idle)))
              × (0 < n)
              × (n + pool.core_worker_limit ≤ length idle)
              × ((length idle - pool.core_worker_limit) * 3 < n * 4 + 2)
              × (n * 4 ≤ (length idle - pool.core_worker_limit) * 3 + 2))
  unfolding shrink
  shrink_keeps_core pool idle kept = (
    (λ few. rw (le→not_ltb _ _ few) refl),
    (λ over.
        let (core, some_, low, high) =
          scale_number_bounds (length idle) pool.core_worker_limit over in
        (
          scale_number (length idle) pool.core_worker_limit,
          shrink-take pool idle kept over,
          some_,
          core,
          low,
          high,
        )),
  )
