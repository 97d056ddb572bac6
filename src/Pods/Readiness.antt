-- ===== src/Pods/Readiness.antt =====
-- What `IsPodReady` and `IsPodNotAvailable` say of a pod's conditions.
use cloudtty.Base.{
  ℕ, suc, ◌+◌, ◌*◌, ◌<◌, true, List, [], ◌∷◌, Option, none, some, ◌==◌, ◌≡◌, ◌≢◌, ◌↔◌, refl, arith,
  eq_iff, ◌⊎◌, if◌then◌else◌,
}
use cloudtty.Base.Result.{ok, err, panic}
use cloudtty.Objects.{Pod, Condition}
use cloudtty.Pods.{
  get_pod_condition_from_list, get_pod_condition, get_pod_ready_condition, is_pod_ready,
  is_pod_not_available,
}

-- The first condition of type Ready, said without an index.
abbrev pub first_ready : List Condition → Option Condition
first_ready [] = none
first_ready (c ∷ cs) = if c.kind == "Ready" then some c else first_ready cs

abbrev drop_index : Option (ℕ × Condition) → Option Condition
drop_index none = none
drop_index (some (n, c)) = some c

from_list-first_ready :
    (n : ℕ) (cs : List Condition)
    → drop_index (get_pod_condition_from_list n cs "Ready") ≡ first_ready cs
unfolding get_pod_condition_from_list
from_list-first_ready n [] = refl
from_list-first_ready n (c ∷ cs) = ground (arith, from_list-first_ready (suc n) cs)

pub get_pod_ready_condition_lem :
    (pod : Pod) → get_pod_ready_condition pod ≡ first_ready pod.conditions
unfolding get_pod_ready_condition get_pod_condition
get_pod_ready_condition_lem pod = ground (arith, from_list-first_ready 0 pod.conditions)

-- The wait test panics exactly where a pod is not ready for want of a condition of type Ready and
-- a positive tolerance is given.
pub is_pod_not_available-panic :
    (pod : Pod) (seconds now : ℕ)
    → (is_pod_not_available pod seconds now ≡ err panic)
      ↔ ((first_ready pod.conditions ≡ none) × (seconds ≢ 0))
unfolding is_pod_not_available is_pod_ready
is_pod_not_available-panic pod seconds now = ground (arith, get_pod_ready_condition_lem pod)

-- The time is set and lies more than the seconds before now.
abbrev pub IsOver : Option ℕ → ℕ → ℕ → Type 0
IsOver none seconds now = ⊥
IsOver (some t) seconds now = t + seconds * 1000000000 < now

-- For a pod that has a condition of type Ready the test answers true exactly if that condition is
-- not true, and either the tolerance is zero or the condition's last transition lies more than the
-- tolerance back.
pub is_pod_not_available-true :
    (pod : Pod) (c : Condition) (seconds now : ℕ)
    → first_ready pod.conditions ≡ some c
    → (is_pod_not_available pod seconds now ≡ ok true)
      ↔ ((c.status ≢ "True") × ((seconds ≡ 0) ⊎ IsOver c.last_transition_time seconds now))
unfolding is_pod_not_available is_pod_ready
is_pod_not_available-true pod c seconds now e =
    ground (arith, get_pod_ready_condition_lem pod, eq_iff c.status "True")
