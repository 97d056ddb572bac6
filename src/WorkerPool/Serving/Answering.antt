-- ===== src/WorkerPool/Serving/Answering.antt =====
-- From a waiting request to the worker that is borrowed for it: `processNextCluster`, then
-- `handleRequestQueue`, then `Borrow`.
use cloudtty.Base.{String, true, false, ◌∷◌, [], none, ◌≡◌, refl, ◌∙◌, ap, contains, string_eq}
use cloudtty.Base.Result.{ok}
use cloudtty.Objects.{Pod, CloudShell}
use cloudtty.Text.{is_empty}
use cloudtty.Queue
use cloudtty.Queue.Invariant.{all_lem}
use cloudtty.Cluster.{Env}
use cloudtty.Cluster.Monad.{Request, World, ◌>>=◌, queue_call, add, string_item, request_item}
use cloudtty.Pods.{is_pod_ready}
use cloudtty.WorkerPool.Keys.{worker_key, web_tty_image, HasCleanKey}
use cloudtty.WorkerPool.Matching.{find_worker, match_worker_for}
use cloudtty.WorkerPool.Matching.First.{none_fits}
use cloudtty.WorkerPool.Lending.{Pool, answer, borrow, lend}
use cloudtty.WorkerPool.Lending.Borrowing.{borrow-fits, match_worker_for_named}
use cloudtty.WorkerPool.Serving.{
  process_next_cluster, handle_request, handle_requests, handle_request_queue,
}
use cloudtty.WorkerPool.Serving.Requests.{handle_request_answers}
use cloudtty.WorkerPool.Serving.Taking.{process_next_cluster-takes, taken, named, answer-ok_lem}

module _ (E : Env) (pool : Pool) where
  handle_one :
      (req : Request) (w v : World E)
      → handle_request E req w ≡ (ok tt, v)
      → handle_requests E (req ∷ []) w ≡ (ok tt, v)
  unfolding handle_requests ◌>>=◌
  handle_one req w v h = rw h refl

  handle_only_request :
      (req : Request) (w v : World E)
      → w.request_queue.queue ≡ req ∷ []
      → handle_request E req w ≡ (ok tt, v)
      → handle_request_queue E w ≡ (ok tt, v)
  unfolding handle_request_queue ◌>>=◌
  handle_only_request req w v only h =
      ap (λ reqs. handle_requests E reqs w) (all_lem w.request_queue ∙ only) ∙ handle_one req w v h

  -- What `handleRequestQueue` leaves of the world: the request is gone, and its shell is told.
  abbrev pub told : Request → CloudShell → World E → E.State → World E
  told req shell w s = record w {
    request_queue = Queue.remove w.request_queue req;
    events =
        queue_call req.cloudshell_queue (add (E.meta_namespace_key shell.namespace shell.name))
        ∷ w.events;
    state = s;
  }

  -- The facts about a ready pod that was not known to the pool and fits the request.
  pub record IsNews (key : String) (pod : Pod) (req : Request) (w : World E) : Type 0 where
    pub split : E.split_meta_namespace_key key ≡ ok (pod.namespace, pod.name)
    pub live : pod.deletion_timestamp ≡ none
    pub ready : is_pod_ready pod ≡ true
    pub clean : HasCleanKey pod
    pub has_name : is_empty pod.name ≡ false
    pub same_namespace : pod.namespace ≡ req.namespace
    pub same_image : web_tty_image pod.containers ≡ req.image
    pub nobody_else : none_fits (Queue.all w.worker_queue) req ≡ true
    pub unknown : contains w.worker_queue.dirty (worker_key pod) ≡ false

  module _ (key : String) (pod : Pod) (req : Request) (w : World E)
      (news : IsNews key pod req w) where
    found :
        (s : E.State)
        → find_worker (Queue.all (taken E pool key pod w s).worker_queue) req ≡ pod.name
    found s =
        named E pool pod req w.worker_queue news.clean news.nobody_else news.unknown
          news.same_namespace news.same_image

    listed_again :
        (s t u : E.State)
        → E.lister_pod pod.namespace pod.name t ≡ (ok pod, u)
        → E.lister_pod req.namespace
            (find_worker (Queue.all (taken E pool key pod w s).worker_queue) req)
            t
          ≡ (ok pod, u)
    listed_again s t u again = rw (found s, ← news.same_namespace) again

    matched :
        (s s' : E.State)
        → E.lister_pod pod.namespace pod.name s ≡ (ok pod, s')
        → match_worker_for E req (taken E pool key pod w s)
          ≡ (ok pod, record (taken E pool key pod w s) { state = s' })
    unfolding ◌>>=◌
    matched s s' again =
        match_worker_for_named E req (taken E pool key pod w s)
          (ap is_empty (found s) ∙ news.has_name)
        ∙ ap (λ out. (out.0, record (taken E pool key pod w s) { state = out.1 }))
            (listed_again s s s' again)

    -- A request that waits alone, and for which no worker waited, is answered by a pod that becomes
    -- ready: after `processNextCluster` has dealt with the key of the pod and `handleRequestQueue` has
    -- run, the request is out of the queue and the key of its shell in the work queue of the
    -- controller, and a `Borrow` with the request goes on to bind that pod. The lister is assumed to
    -- give the pod each time, and the shell to be there.
    pub waiting_request_served :
        (shell : CloudShell) (s s' s'' t : E.State)
        → w.request_queue.queue ≡ req ∷ []
        → E.lister_pod pod.namespace pod.name w.state ≡ (ok pod, s)
        → E.lister_pod pod.namespace pod.name s ≡ (ok pod, s')
        → E.shells.get req.namespace req.cloudshell s' ≡ (ok shell, s'')
        → E.lister_pod pod.namespace pod.name s'' ≡ (ok pod, t)
        → (handle_request_queue E (process_next_cluster E pool key w).1
            ≡ (ok tt, told req shell (taken E pool key pod w s) s''))
          × (borrow E req (told req shell (taken E pool key pod w s) s'')
              ≡ lend E req pod
                  (record (told req shell (taken E pool key pod w s) s'') { state = t }))
    waiting_request_served shell s s' s'' t only first second there third = (
      ap (λ out. handle_request_queue E out.1) takes
          ∙ handle_only_request req (taken E pool key pod w s) _ only (
              handle_request_answers E req pod shell (taken E pool key pod w s) _ s''
                (matched s s' second) there),
      borrow-fits E req (told req shell (taken E pool key pod w s) s'')
            (ap is_empty (found s) ∙ news.has_name)
          ∙ ap
              (λ out.
                answer E req out.0
                  (record (told req shell (taken E pool key pod w s) s'') { state = out.1 }))
              (listed_again s s'' t third)
          ∙ answer-ok_lem E pool req pod
              (record (told req shell (taken E pool key pod w s) s'') { state = t }),
    )
      where
        takes : process_next_cluster E pool key w ≡ (ok true, taken E pool key pod w s)
        takes =
            process_next_cluster-takes E pool key pod.namespace pod.name pod w s news.split first
              news.live news.ready
