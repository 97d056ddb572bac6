-- ===== src/WorkerPool/Matching.antt =====
-- `matchWorkerFor` and `matchRequestFor`: a worker and a request fit if the namespaces and the images
-- are equal.
pub mod First
use cloudtty.Base.{String, Bool, List, [], ◌∷◌, Option, none, some, ◌==◌, ◌&&◌, if◌then◌else◌}
use cloudtty.Base.Result.{no_worker, panic, Result, ok, err}
use cloudtty.Objects.{Pod}
use cloudtty.Text.{is_empty}
use cloudtty.Queue
use cloudtty.Cluster.{Env}
use cloudtty.Cluster.Monad.{
  Request, M, ◌>>=◌, fail, from_result, call, workers, requests, string_item, request_item,
}
use cloudtty.WorkerPool.Keys.{WorkerName, split_worker_key}

-- `ns, name, image, _ := SplitWorkerKey(key)`: all are empty where the key has another form.
unfoldable pub names_of : String → WorkerName
names_of key = elim (split_worker_key key) [
  | ok names ↦ names
  | err _ ↦ record { namespace = ""; name = ""; image = "" }
]

abbrev pub fits : WorkerName → Request → Bool
fits names req = names.namespace == req.namespace && names.image == req.image

-- The loop of `matchWorkerFor`, with the name that it leaves in `workerName`.
unfoldable pub find_worker : List String → Request → String
find_worker [] req = ""
find_worker (key ∷ keys) req =
    if fits (names_of key) req then (names_of key).name else find_worker keys req

-- The loop of `matchRequestFor`. Only where a request waits does it read the first container.
unfoldable pub find_request : List Request → Pod → Result (Option Request)
find_request [] worker = ok none
find_request (req ∷ reqs) worker = elim worker.containers [
  | [] ↦ err panic
  | ttyd ∷ _ ↦
      if req.namespace == worker.namespace && req.image == ttyd.image
      then ok (some req)
      else find_request reqs worker
]

module _ (E : Env) where
  unfoldable pub match_worker_for : Request → M E Pod
  match_worker_for req = do
    queue ← workers
    let name = find_worker (Queue.all queue) req
    if is_empty name then fail no_worker else call (E.lister_pod req.namespace name)

  unfoldable pub match_request_for : Pod → M E (Option Request)
  match_request_for worker = do
    queue ← requests
    from_result (find_request (Queue.all queue) worker)
