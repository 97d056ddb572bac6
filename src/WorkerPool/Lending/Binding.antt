-- ===== src/WorkerPool/Lending/Binding.antt =====
-- The labels of a borrowed worker: its owner, and how often it has been bound.
use cloudtty.Base.{
  ℕ, ◌+◌, ◌<◌, ◌^◌, String, [], ◌∷◌, Option, none, some, if◌then◌else◌, ◌≡◌, arith, ◌==◌, string_eq,
}
use cloudtty.Base.Int.{pos}
use cloudtty.Base.Dict.{Dict, lookup, lookup-insert, lookup-delete}
use cloudtty.Objects.{Pod}
use cloudtty.Text.Decimal.{show_int, parse_int-show_int}
use cloudtty.Cluster.{Env}
use cloudtty.Cluster.Monad.{Request}
use cloudtty.WorkerPool.Keys.{
  worker_owner_label_key, worker_request_label_key, worker_binding_count_label_key,
}
use cloudtty.WorkerPool.Lending.{next_count, bind_labels, bind_worker}

-- A label of a pod; "" if it has none, as Go reads a missing key.
abbrev pub label : String → Option Dict → Option String
label k none = none
label k (some m) = lookup k m

abbrev pub HasLabels : Option Dict → Type 0
HasLabels none = ⊥
HasLabels (some []) = ⊥
HasLabels (some (_ ∷ _)) = Unit {0}

-- What each label reads after a worker that has any label is bound to a cloudshell: the owner is
-- the cloudshell, the request is gone, the count is the next count, and any other label stays.
pub label-bind_labels :
    (cloudshell k : String) (labels : Option Dict)
    → HasLabels labels
    → label k (bind_labels cloudshell labels) ≡ (
        if worker_request_label_key == k
        then none
        else if worker_owner_label_key == k
        then some cloudshell
        else if worker_binding_count_label_key == k
        then some (show_int (next_count (label worker_binding_count_label_key labels)))
        else label k labels)
unfolding bind_labels
label-bind_labels cloudshell k none h = elim h [ ]
label-bind_labels cloudshell k (some []) h = elim h [ ]
label-bind_labels cloudshell k (some (l ∷ ls)) h = rw (
  lookup-delete worker_request_label_key k _,
  lookup-insert worker_owner_label_key k cloudshell _,
  lookup-insert worker_binding_count_label_key k _ (l ∷ ls),
)

-- A count label that holds a number below 2^31 - 1 is followed by the number plus one.
pub next_count_suc : (n : ℕ) → n < 2 ^ 31 → next_count (some (show_int (pos n))) ≡ pos (n + 1)
unfolding next_count
next_count_suc n h = rw (parse_int-show_int n h) (ground arith)

-- A pod that has been bound n times by its label, 0 < n.
abbrev pub HasCount : ℕ → Pod → Type 0
HasCount n worker = label worker_binding_count_label_key worker.labels ≡ some (show_int (pos n))

HasLabels-HasCount : (n : ℕ) (worker : Pod) → HasCount n worker → HasLabels worker.labels
HasLabels-HasCount n worker h = labelled worker.labels h
  where
    labelled :
        (labels : Option Dict)
        → label worker_binding_count_label_key labels ≡ some (show_int (pos n))
        → HasLabels labels
    labelled none h = cc
    labelled (some []) h = cc
    labelled (some (_ ∷ _)) h = tt

module _ (E : Env) where
  -- Each run of the body of `Borrow` counts one more binding, up to 2^31 - 1.
  pub bind_worker-HasCount :
      (n : ℕ) (req : Request) (worker : Pod)
      → n < 2 ^ 31
      → HasCount n worker
      → HasCount (n + 1) (bind_worker E req worker)
  unfolding bind_worker
  bind_worker-HasCount n req worker small h = rw (
    label-bind_labels req.cloudshell worker_binding_count_label_key worker.labels
        (HasLabels-HasCount n worker h),
    h,
    next_count_suc n small,
  )
