-- ===== src/WorkerPool/Keys.antt =====
-- `WorkerKeyFunc`, `SplitWorkerKey` and `isIdleWorker` of pkg/workerpool/worker_pool.go, and the
-- label keys of pkg/constants/constants.go.
use cloudtty.Base.{
  String, ◌<>◌, Bool, true, false, List, [], ◌∷◌, Option, none, some, ◌==◌, if◌then◌else◌, ◌≡◌,
  refl, Bool-cases, inl, inr,
}
use cloudtty.Base.Dict.{lookup}
use cloudtty.Base.Result.{failed, Result, ok, err}
use cloudtty.Objects.{Pod, Container}
use cloudtty.Text.{is_empty, split}
use cloudtty.Text.Split.{has_no_cut, is_clean, split_whole, split-append}

abbrev pub worker_owner_label_key : String
worker_owner_label_key = "worker.cloudtty.io/owner-name"

abbrev pub worker_request_label_key : String
worker_request_label_key = "worker.cloudtty.io/request"

abbrev pub worker_binding_count_label_key : String
worker_binding_count_label_key = "worker.cloudtty.io/binding-count"

abbrev pub worker_name_label_key : String
worker_name_label_key = "worker.cloudtty.io/name"

abbrev pub controller_finalizer : String
controller_finalizer = "cloudshell.cloudtty.io/worker-pool"

-- The loop of `WorkerKeyFunc`: the image of the first container named web-tty, or the empty text.
unfoldable pub web_tty_image : List Container → String
web_tty_image [] = ""
web_tty_image (c ∷ cs) = if c.name == "web-tty" then c.image else web_tty_image cs

unfoldable pub worker_key_func : Pod → Result String
unfolding web_tty_image
worker_key_func worker =
    let image = web_tty_image worker.containers in
    if is_empty image
    then err (failed "web-tty container image not found")
    else if is_empty worker.namespace
    then ok (image <> ("//" <> worker.name))
    else ok (worker.namespace <> ("//" <> (image <> ("//" <> worker.name))))

-- `key, _ := WorkerKeyFunc(worker)`
unfoldable pub worker_key : Pod → String
unfolding worker_key_func
worker_key worker = elim (worker_key_func worker) [ ok key ↦ key | err _ ↦ "" ]

pub record WorkerName : Type 0 where
  pub namespace : String
  pub name : String
  pub image : String

split_parts : List String → Result WorkerName
split_parts (image ∷ name ∷ []) = ok (record { namespace = ""; name = name; image = image })
split_parts (namespace ∷ image ∷ name ∷ []) =
    ok (record { namespace = namespace; name = name; image = image })
split_parts _ = err (failed "unexpected key format")

unfoldable pub split_worker_key : String → Result WorkerName
unfolding split_parts split
split_worker_key key = split_parts (split key)

owner_is_empty : Option String → Bool
owner_is_empty none = true
owner_is_empty (some owner) = is_empty owner

unfoldable pub is_idle_worker : Pod → Bool
unfolding owner_is_empty
is_idle_worker worker = elim worker.labels [
  | none ↦ false
  | some labels ↦ owner_is_empty (lookup worker_owner_label_key labels)
]

-- A pod whose key can be taken apart: the namespace has no "//" and does not end in a slash, nor
-- has and does the image of its web-tty container, which is there, and the name has no "//".
pub record HasCleanKey (worker : Pod) : Type 0 where
  pub namespace : is_clean worker.namespace ≡ true
  pub image : is_clean (web_tty_image worker.containers) ≡ true
  pub image_set : is_empty (web_tty_image worker.containers) ≡ false
  pub name : has_no_cut worker.name ≡ true

worker_key_lem :
    (worker : Pod)
    → is_empty (web_tty_image worker.containers) ≡ false
    → worker_key worker ≡ (
        if is_empty worker.namespace
        then web_tty_image worker.containers <> ("//" <> worker.name)
        else worker.namespace
          <> ("//" <> (web_tty_image worker.containers <> ("//" <> worker.name))))
unfolding worker_key worker_key_func
worker_key_lem worker h = elim (Bool-cases (is_empty worker.namespace)) [
  | inl bare ↦ rw (h, bare, worker_key, worker_key_func)
  | inr whole ↦ rw (h, whole, worker_key, worker_key_func)
]

eq_empty : (s : String) → is_empty s ≡ true → "" ≡ s
eq_empty String.[] h = refl
eq_empty (String.◌∷◌ c s) h = cc

-- The pool finds the namespace, the name and the image in the key that it made of a pod with a
-- clean key, with a namespace or without.
pub split_worker_key-worker_key :
    (worker : Pod)
    → HasCleanKey worker
    → split_worker_key (worker_key worker)
      ≡ ok (record {
        namespace = worker.namespace;
        name = worker.name;
        image = web_tty_image worker.containers;
      })
unfolding split_worker_key split_parts
split_worker_key-worker_key worker h = elim (Bool-cases (is_empty worker.namespace)) [
  | inl bare ↦
      rw
        (
          worker_key_lem worker h.image_set,
          bare,
          split-append (web_tty_image worker.containers) worker.name h.image,
          split_whole worker.name h.name,
        )
        (λ i. ok (record {
          namespace = eq_empty worker.namespace bare i;
          name = worker.name;
          image = web_tty_image worker.containers;
        }))
  | inr whole ↦ rw (
    worker_key_lem worker h.image_set,
    whole,
    split-append worker.namespace _ h.namespace,
    split-append (web_tty_image worker.containers) worker.name h.image,
    split_whole worker.name h.name,
  )
]
