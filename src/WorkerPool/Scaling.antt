-- ===== src/WorkerPool/Scaling.antt =====
-- `scaleInWorkerQueue` of pkg/workerpool/worker_pool.go: pods that stay unready are deleted, and of
-- the idle workers over the core limit three quarters, rounded, those that were bound least and are
-- oldest first.
pub mod Bounds
pub mod Panics
pub mod Order
use cloudtty.Base.{
  ℕ, zero, suc, ◌+◌, ◌-◌, ◌*◌, ◌/◌, String, Bool, true, false, List, [], ◌∷◌, ◌++◌, Option, none,
  some, if◌then◌else◌, length, ltb,
}
use cloudtty.Base.Int.{ℤ, ltb_ℤ, eqb_ℤ}
use cloudtty.Base.Dict.{lookup}
use cloudtty.Base.Result.{Error, panic, Result, ok, err}
use cloudtty.Objects.{Pod}
use cloudtty.Text.Decimal.{parse_int}
use cloudtty.Queue
use cloudtty.Cluster.{Env}
use cloudtty.Cluster.Monad.{
  Request, World, M, ◌>>=◌, ◌>>◌, pure, fail, from_result, attempt, call, query, workers,
  remove_worker, string_item,
}
use cloudtty.Pods.{is_pod_ready, is_pod_not_available}
use cloudtty.WorkerPool.Keys.{worker_key, worker_owner_label_key, worker_binding_count_label_key}
use cloudtty.WorkerPool.Matching.{match_request_for}
use cloudtty.WorkerPool.Creation.{delete_worker}
use cloudtty.WorkerPool.Lending.{Pool, or_empty}

-- A label as Go reads it from a map, with "" for a missing key.
abbrev pub text_of : Option String → String
text_of none = ""
text_of (some s) = s

unfoldable pub binding_count : Pod → ℤ
binding_count pod =
    (parse_int (text_of (lookup worker_binding_count_label_key (or_empty pod.labels)))).0

-- `metav1.Time.Before`, where a zero time comes before all others.
unfoldable pub before : Option ℕ → Option ℕ → Bool
before _ none = false
before none (some u) = true
before (some t) (some u) = ltb t u

-- The comparison that `sort.Slice` gets.
unfoldable pub less : Pod → Pod → Bool
less one two =
    if eqb_ℤ (binding_count one) (binding_count two)
    then before one.creation_timestamp two.creation_timestamp
    else ltb_ℤ (binding_count one) (binding_count two)

-- `int(math.Floor(float64(idle-core)*0.75 + 0.5))`: the sums and products of quarters are exact in
-- float64 for fewer than 2^50 workers.
unfoldable pub scale_number : ℕ → ℕ → ℕ
scale_number idle core = ((idle - core) * 3 + 2) / 4

abbrev pub if_unclaimed : Pod → Option Request → List Pod
if_unclaimed pod none = pod ∷ []
if_unclaimed pod (some _) = []

module _ (E : Env) where
  unfoldable pub collect_idle : Pod → Bool → M E (List Pod)
  collect_idle pod false = pure []
  collect_idle pod true = do req ← match_request_for E pod; pure (if_unclaimed pod req)

  unfoldable pub delete_if : Bool → Pod → M E (Unit {0})
  delete_if true pod = attempt (delete_worker E pod) >> pure tt
  delete_if false pod = pure tt

  -- The first loop. The clock is read for each pod, also where `IsPodNotAvailable` does not need it.
  unfoldable pub scan_workers : List Pod → M E (List Pod)
  scan_workers [] = pure []
  scan_workers (pod ∷ pods) = do
    now ← query E.now
    late ← from_result (is_pod_not_available pod 1800 now)
    delete_if late pod
    idle ← collect_idle pod (is_pod_ready pod)
    rest ← scan_workers pods
    pure (idle ++ rest)

  unfoldable pub forget_deleted : Pod → Result (Unit {0}) → M E (Unit {0})
  forget_deleted worker (err e) = pure tt
  forget_deleted worker (ok _) = remove_worker (worker_key worker)

  -- The second loop, over the indices below the number; an index out of range panics.
  unfoldable pub delete_first : ℕ → List Pod → M E (Unit {0})
  delete_first zero idle = pure tt
  delete_first (suc n) [] = fail panic
  delete_first (suc n) (worker ∷ idle) = do
    outcome ← attempt (delete_worker E worker)
    forget_deleted worker outcome
    delete_first n idle

  unfoldable pub shrink : Pool → List Pod → M E (Unit {0})
  shrink pool idle =
      if ltb pool.core_worker_limit (length idle)
      then delete_first (scale_number (length idle) pool.core_worker_limit) (E.sort less idle)
      else pure tt

  -- The listed pods; none where the lister fails, which is only logged.
  abbrev pub listed : Result (List Pod) → List Pod
  listed (ok pods) = pods
  listed (err e) = []

  unfoldable pub scale_in_worker_queue : Pool → M E (Unit {0})
  scale_in_worker_queue pool = do
    found ← attempt (call (E.lister_pods none worker_owner_label_key ""))
    idle ← scan_workers (listed found)
    shrink pool idle
