-- ===== src/WorkerPool/Serving/Requests.antt =====
-- What `handleRequestQueue` does with a request.
use cloudtty.Base.{List, [], ◌∷◌, some, ◌≡◌, refl}
use cloudtty.Base.Result.{Error, Result, ok, err}
use cloudtty.Objects.{Pod, CloudShell}
use cloudtty.Queue
use cloudtty.Cluster.{Env}
use cloudtty.Cluster.Monad.{Request, World, ◌>>=◌, queue_call, add, string_item, request_item}
use cloudtty.WorkerPool.Keys.{worker_request_label_key}
use cloudtty.WorkerPool.Matching.{match_worker_for}
use cloudtty.WorkerPool.Creation.{create_worker}
use cloudtty.WorkerPool.Serving.{
  drop_request, create_unless, inform_shell, handle_matched, handle_request,
}

module _ (E : Env) where
  -- A request that a worker fits is answered: the shell's key goes to the shell's work queue, and the
  -- request leaves the request queue. The shell is assumed to be there.
  pub handle_request_answers :
      (req : Request) (pod : Pod) (shell : CloudShell) (w v : World E) (s : E.State)
      → match_worker_for E req w ≡ (ok pod, v)
      → E.shells.get req.namespace req.cloudshell v.state ≡ (ok shell, s)
      → handle_request E req w ≡ (
        ok tt,
        record v {
          request_queue = Queue.remove v.request_queue req;
          events =
              queue_call req.cloudshell_queue
                (add (E.meta_namespace_key shell.namespace shell.name))
              ∷ v.events;
          state = s;
        },
      )
  unfolding handle_request handle_matched inform_shell drop_request ◌>>=◌
  handle_request_answers req pod shell w v s matched found = rw (matched, found) refl

  -- The pods that were made for the request.
  abbrev pub made_for : Request → E.State → Result (List Pod) × E.State
  made_for req s = E.lister_pods (some req.namespace) worker_request_label_key req.cloudshell s

  abbrev pub created_if : Request → List Pod → World E → World E
  created_if req [] v = (create_worker E req v).1
  created_if req (_ ∷ _) v = v

  create_unless_lem :
      (req : Request) (pods : List Pod) (v : World E)
      → create_unless E req (ok pods) v ≡ (ok tt, created_if req pods v)
  unfolding create_unless ◌>>=◌
  create_unless_lem req [] v = refl
  create_unless_lem req (_ ∷ _) v = refl

  -- For a request without a fitting worker a worker is created exactly if no pod is listed that was
  -- made for it before; the result is no error, whether the creation succeeds or not. The listing
  -- is assumed to succeed.
  pub handle_request_creates :
      (req : Request) (e : Error) (pods : List Pod) (w v : World E) (s : E.State)
      → match_worker_for E req w ≡ (err e, v)
      → made_for req v.state ≡ (ok pods, s)
      → handle_request E req w ≡ (ok tt, created_if req pods (record v { state = s }))
  unfolding handle_request handle_matched ◌>>=◌
  handle_request_creates req e pods w v s unmatched listed =
      rw (unmatched, listed) (create_unless_lem req pods _)
