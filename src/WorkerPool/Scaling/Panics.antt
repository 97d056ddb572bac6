-- ===== src/WorkerPool/Scaling/Panics.antt =====
-- When the scan of `scaleInWorkerQueue` panics, which ends the whole process.
use cloudtty.Base.{
  ℕ, Bool, true, false, List, [], ◌∷◌, ◌++◌, Option, none, some, if◌then◌else◌, ◌≡◌, ◌≢◌, ◌↔◌, refl,
  arith, Bool-cases, inl, inr, ◌⊎◌, ◌∙◌, ap, ◌&&◌, ◌==◌, nat_eq, Option-cases,
}
use cloudtty.Base.Result.{panic, Result, ok, err}
use cloudtty.Objects.{Pod, Container, Condition}
use cloudtty.Queue
use cloudtty.Cluster.{Env}
use cloudtty.Cluster.Monad.{
  Request, World, bind-ok, bind-err, ◌>>=◌, pure, query, from_result, request_item,
}
use cloudtty.Pods.{is_pod_ready, is_pod_not_available, has_waited, get_pod_ready_condition}
use cloudtty.Pods.Readiness.{first_ready, is_pod_not_available-panic}
use cloudtty.WorkerPool.Matching.{find_request, match_request_for}
use cloudtty.WorkerPool.Creation.{delete_worker}
use cloudtty.WorkerPool.Scaling.{if_unclaimed, scan_workers, collect_idle, delete_if}

abbrev Succeeds : {A : Type 0} → Result A → Type 0
Succeeds {A} r = (a : A) × (r ≡ ok a)

abbrev FailsOnlyByPanic : {A : Type 0} → Result A → Type 0
FailsOnlyByPanic (ok a) = Unit {0}
FailsOnlyByPanic (err e) = e ≡ panic

-- Each pod has a container, as the API server demands.
abbrev pub HaveContainers : List Pod → Type 0
HaveContainers [] = Unit {0}
HaveContainers (pod ∷ pods) = (pod.containers ≢ []) × HaveContainers pods

abbrev is_some {ℓ} : {A : Type ℓ} → Option A → Bool
is_some none = false
is_some (some a) = true

-- Each pod has a condition of type Ready.
abbrev pub all_reported : List Pod → Bool
all_reported [] = true
all_reported (pod ∷ pods) = is_some (first_ready pod.conditions) && all_reported pods

find_request-Succeeds :
    (reqs : List Request) (pod : Pod) (c : Container) (cs : List Container)
    → pod.containers ≡ c ∷ cs
    → Succeeds (find_request reqs pod)
unfolding find_request
find_request-Succeeds [] pod c cs h = (none, refl)
find_request-Succeeds (req ∷ reqs) pod c cs h =
    elim (Bool-cases (req.namespace == pod.namespace && req.image == c.image)) [
      | inl fits ↦ (some req, ground arith)
      | inr other ↦ let (r, e) = find_request-Succeeds reqs pod c cs h in (r, ground arith)
    ]

containers-cases :
    (cs : List Container) → cs ≢ [] → (d : Container) × (ds : List Container) × (cs ≡ d ∷ ds)
containers-cases [] h = absurd (h refl)
containers-cases (d ∷ ds) h = (d, ds, refl)

Result-cases : {A : Type 0} (r : Result A) → FailsOnlyByPanic r → (r ≡ err panic) ⊎ Succeeds r
Result-cases (ok a) h = inr (a, refl)
Result-cases (err e) h = inl (ap err h)

if-FailsOnlyByPanic :
    {A : Type 0} (b : Bool) (r s : Result A)
    → FailsOnlyByPanic r
    → FailsOnlyByPanic s
    → FailsOnlyByPanic (if b then r else s)
if-FailsOnlyByPanic true r s h k = h
if-FailsOnlyByPanic false r s h k = k

has_waited-FailsOnlyByPanic :
    (seconds now : ℕ) (c : Option Condition) → FailsOnlyByPanic (has_waited seconds now c)
unfolding has_waited
has_waited-FailsOnlyByPanic seconds now none = refl
has_waited-FailsOnlyByPanic seconds now (some c) = elim (Option-cases c.last_transition_time) [
  | inl e ↦ rw (e) tt
  | inr (t, e) ↦ rw (e) tt
]

is_pod_not_available-FailsOnlyByPanic :
    (pod : Pod) (seconds now : ℕ) → FailsOnlyByPanic (is_pod_not_available pod seconds now)
unfolding is_pod_not_available
is_pod_not_available-FailsOnlyByPanic pod seconds now =
    if-FailsOnlyByPanic (is_pod_ready pod) _ _ tt (
      if-FailsOnlyByPanic (nat_eq seconds 0) _ _ tt
        (has_waited-FailsOnlyByPanic seconds now (get_pod_ready_condition pod)))

is_pod_not_available-Succeeds :
    (pod : Pod) (now : ℕ)
    → first_ready pod.conditions ≢ none
    → Succeeds (is_pod_not_available pod 1800 now)
is_pod_not_available-Succeeds pod now h =
    elim (Result-cases _ (is_pod_not_available-FailsOnlyByPanic pod 1800 now)) [
      | inl e ↦ absurd (h ((is_pod_not_available-panic pod 1800 now).0 e).0)
      | inr s ↦ s
    ]

module _ (E : Env) where
  collect_idle-Succeeds :
      (pod : Pod) (ready : Bool) (w : World E)
      → pod.containers ≢ []
      → Succeeds (collect_idle E pod ready w).0
  unfolding collect_idle match_request_for ◌>>=◌
  collect_idle-Succeeds pod false w h = ([], refl)
  collect_idle-Succeeds pod true w h =
      let (c, cs, e) = containers-cases pod.containers h in
      let (r, found) = find_request-Succeeds (Queue.all w.request_queue) pod c cs e in
      (if_unclaimed pod r, ground (arith, found))

  delete_if-ok : (late : Bool) (pod : Pod) (w : World E) → (delete_if E late pod w).0 ≡ ok tt
  unfolding delete_if delete_worker ◌>>=◌
  delete_if-ok true pod w = refl
  delete_if-ok false pod w = refl

  -- The scan of pods that have containers succeeds if each has a condition of type Ready.
  scan_workers-Succeeds :
      (pods : List Pod) (w : World E)
      → HaveContainers pods
      → all_reported pods ≡ true
      → Succeeds (scan_workers E pods w).0
  unfolding scan_workers query from_result pure
  scan_workers-Succeeds [] w h r = ([], refl)
  scan_workers-Succeeds (pod ∷ pods) w (c, h) r =
      let s = E.now w.state in
      let (late, is_late) = is_pod_not_available-Succeeds pod s.0 (ground arith) in
      let w1 = delete_if E late pod (record w { state = s.1 }) in
      let (idle, is_idle) = collect_idle-Succeeds pod (is_pod_ready pod) w1.1 c in
      let w2 = collect_idle E pod (is_pod_ready pod) w1.1 in
      let (rest, is_rest) = scan_workers-Succeeds pods w2.1 h (ground arith) in
      let deleted = delete_if-ok late pod (record w { state = s.1 }) in
      (
        idle ++ rest,
        bind-ok _ _ w s.0 refl
            ∙ bind-ok _ _ _ late is_late
            ∙ bind-ok _ _ _ tt deleted
            ∙ bind-ok _ _ _ idle is_idle
            ∙ bind-ok _ _ _ rest is_rest,
      )

  -- The scan of pods that have containers panics if one has no condition of type Ready.
  scan_workers-panic :
      (pods : List Pod) (w : World E)
      → HaveContainers pods
      → all_reported pods ≡ false
      → (scan_workers E pods w).0 ≡ err panic
  unfolding scan_workers query from_result pure
  scan_workers-panic [] w h r = ground arith
  scan_workers-panic (pod ∷ pods) w (c, h) r =
      let s = E.now w.state in
      elim (Result-cases _ (is_pod_not_available-FailsOnlyByPanic pod 1800 s.0)) [
        | inl e ↦ bind-ok _ _ w s.0 refl ∙ bind-err _ _ _ panic e
        | inr (late, is_late) ↦
            let w1 = delete_if E late pod (record w { state = s.1 }) in
            let others : all_reported pods ≡ false =
              ground (arith, is_pod_not_available-panic pod 1800 s.0) in
            let (idle, is_idle) = collect_idle-Succeeds pod (is_pod_ready pod) w1.1 c in
            let w2 = collect_idle E pod (is_pod_ready pod) w1.1 in
            let deleted = delete_if-ok late pod (record w { state = s.1 }) in
            bind-ok _ _ w s.0 refl
            ∙ bind-ok _ _ _ late is_late
            ∙ bind-ok _ _ _ tt deleted
            ∙ bind-ok _ _ _ idle is_idle
            ∙ bind-err _ _ _ panic (scan_workers-panic pods w2.1 h others)
      ]

  -- Over listed pods that each have a container, `scaleInWorkerQueue` panics in its first loop, and so
  -- ends the process, exactly if one of the pods has no condition of type Ready.
  pub scan_workers_panics :
      (pods : List Pod) (w : World E)
      → HaveContainers pods
      → ((scan_workers E pods w).0 ≡ err panic) ↔ (all_reported pods ≡ false)
  scan_workers_panics pods w h = elim (Bool-cases (all_reported pods)) [
    | inl r ↦ let (_, e) = scan_workers-Succeeds pods w h r in ground (arith, e)
    | inr r ↦ let e = scan_workers-panic pods w h r in (λ _. r, λ _. e)
  ]
