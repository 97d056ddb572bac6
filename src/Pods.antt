-- ===== src/Pods.antt =====
-- pkg/utils/pod.go: whether a pod is ready, and for how long it has not been.
pub mod Readiness
use cloudtty.Base.{
  ℕ, suc, ◌+◌, ◌*◌, String, Bool, true, false, List, [], ◌∷◌, Option, none, some, ◌==◌, ltb, nat_eq,
  if◌then◌else◌, ◌≡◌, refl, ◌&&◌,
}
use cloudtty.Base.Result.{Error, panic, Result, ok, err}
use cloudtty.Objects.{Pod, Condition}

-- `corev1.PodReady` and `corev1.ConditionTrue`
abbrev pub pod_ready : String
pod_ready = "Ready"

abbrev pub condition_true : String
condition_true = "True"

-- `getPodConditionFromList`: the index of the first condition of the kind, and the condition.
unfoldable pub get_pod_condition_from_list : ℕ → List Condition → String → Option (ℕ × Condition)
get_pod_condition_from_list n [] kind = none
get_pod_condition_from_list n (c ∷ cs) kind =
    if c.kind == kind then some (n, c) else get_pod_condition_from_list (suc n) cs kind

-- `getPodCondition`
unfoldable pub get_pod_condition : Pod → String → Option (ℕ × Condition)
unfolding get_pod_condition_from_list
get_pod_condition pod kind = get_pod_condition_from_list 0 pod.conditions kind

-- `GetPodReadyCondition` and `getPodReadyCondition`
unfoldable pub get_pod_ready_condition : Pod → Option Condition
unfolding get_pod_condition
get_pod_ready_condition pod = elim (get_pod_condition pod pod_ready) [
  | none ↦ none
  | some (n, c) ↦ some c
]

-- `IsPodReadyConditionTrue`
unfoldable pub is_pod_ready_condition_true : Option Condition → Bool
is_pod_ready_condition_true none = false
is_pod_ready_condition_true (some c) = c.status == condition_true

unfoldable pub is_pod_ready : Pod → Bool
unfolding is_pod_ready_condition_true get_pod_ready_condition
is_pod_ready pod = is_pod_ready_condition_true (get_pod_ready_condition pod)

-- `c.LastTransitionTime` of a nil `c` panics.
unfoldable pub has_waited : ℕ → ℕ → Option Condition → Result Bool
has_waited seconds now none = err panic
has_waited seconds now (some c) = elim c.last_transition_time [
  | none ↦ ok false
  | some t ↦ ok (ltb (t + seconds * 1000000000) now)
]

-- `now` is what `time.Now()` gives.
unfoldable pub is_pod_not_available : Pod → ℕ → ℕ → Result Bool
unfolding is_pod_ready has_waited get_pod_ready_condition
is_pod_not_available pod seconds now =
    if is_pod_ready pod
    then ok false
    else if nat_eq seconds 0
    then ok true
    else has_waited seconds now (get_pod_ready_condition pod)
