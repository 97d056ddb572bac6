-- ===== src/WorkerPool/Serving/Taking.antt =====
-- A ready worker that `processNextCluster` takes in, and who can borrow it then.
use cloudtty.Base.{
  String, true, false, ◌∷◌, [], ◌++◌, none, ◌≡◌, refl, ◌∙◌, ap, contains, string_eq, eq_refl,
}
use cloudtty.Base.Result.{ok}
use cloudtty.Objects.{Pod}
use cloudtty.Text.{is_empty}
use cloudtty.Queue
use cloudtty.Queue.Invariant.{all_lem}
use cloudtty.Cluster.{Env}
use cloudtty.Cluster.Monad.{
  Request, World, ◌>>=◌, queue_call, forget, done, match_request_signal, string_item, request_item,
}
use cloudtty.Pods.{is_pod_ready}
use cloudtty.WorkerPool.Keys.{worker_key, web_tty_image, HasCleanKey, split_worker_key-worker_key}
use cloudtty.WorkerPool.Matching.{names_of, fits, find_worker}
use cloudtty.WorkerPool.Matching.First.{none_fits, find_worker_first}
use cloudtty.WorkerPool.Lending.{Pool, answer, borrow, lend}
use cloudtty.WorkerPool.Lending.Borrowing.{borrow-fits}
use cloudtty.WorkerPool.Serving.{
  process_next_cluster, process_key, process_listed, settle_key, reconcile,
}
use cloudtty.WorkerPool.Serving.Reconciling.{reconcile_live_lem, offered}

module _ (E : Env) (pool : Pool) where
  -- The worker's key waits, the matching goroutine is signalled, and the key of the pod is dealt with.
  abbrev pub taken : String → Pod → World E → E.State → World E
  taken key pod w s = record w {
    worker_queue = Queue.add w.worker_queue (worker_key pod);
    events =
        queue_call pool.queue (done key)
        ∷ queue_call pool.queue (forget key)
        ∷ match_request_signal
        ∷ w.events;
    state = s;
  }

  reconcile_ready :
      (pod : Pod) (w : World E)
      → pod.deletion_timestamp ≡ none
      → is_pod_ready pod ≡ true
      → reconcile E pod w ≡ (ok tt, offered E w pod)
  reconcile_ready pod w h ready = reconcile_live_lem E pod w h ∙ rw ready refl

  -- A pod that the lister gives, that is ready and not being deleted, joins the worker queue and the
  -- matching goroutine is signalled, whatever its labels are: that a shell owns it is not looked at.
  pub process_next_cluster-takes :
      (key namespace name : String) (pod : Pod) (w : World E) (s : E.State)
      → E.split_meta_namespace_key key ≡ ok (namespace, name)
      → E.lister_pod namespace name w.state ≡ (ok pod, s)
      → pod.deletion_timestamp ≡ none
      → is_pod_ready pod ≡ true
      → process_next_cluster E pool key w ≡ (ok true, taken key pod w s)
  unfolding process_next_cluster process_key process_listed settle_key ◌>>=◌
  process_next_cluster-takes key namespace name pod w s split listed live ready =
      rw (split, listed, reconcile_ready pod _ live ready) refl

  names_of-worker_key :
      (pod : Pod)
      → HasCleanKey pod
      → names_of (worker_key pod) ≡ record {
        namespace = pod.namespace;
        name = pod.name;
        image = web_tty_image pod.containers;
      }
  unfolding names_of
  names_of-worker_key pod clean = rw (split_worker_key-worker_key pod clean, names_of) refl

  fits-worker_key :
      (pod : Pod) (req : Request)
      → HasCleanKey pod
      → pod.namespace ≡ req.namespace
      → web_tty_image pod.containers ≡ req.image
      → fits (names_of (worker_key pod)) req ≡ true
  fits-worker_key pod req clean ns image =
      rw (names_of-worker_key pod clean, ns, image, eq_refl req.namespace, eq_refl req.image) refl

  all-add_new :
      (q : Queue.Queue String) (key : String)
      → contains q.dirty key ≡ false
      → Queue.all (Queue.add q key) ≡ Queue.all q ++ key ∷ []
  unfolding Queue.add
  all-add_new q key new = rw (new, all_lem, all_lem) refl

  -- The only waiting key that fits is the worker's.
  pub named :
      (pod : Pod) (req : Request) (q : Queue.Queue String)
      → HasCleanKey pod
      → none_fits (Queue.all q) req ≡ true
      → contains q.dirty (worker_key pod) ≡ false
      → pod.namespace ≡ req.namespace
      → web_tty_image pod.containers ≡ req.image
      → find_worker (Queue.all (Queue.add q (worker_key pod))) req ≡ pod.name
  named pod req q clean nobody new ns image =
      ap (λ keys. find_worker keys req) (all-add_new q (worker_key pod) new)
      ∙ (find_worker_first (Queue.all q) (worker_key pod) [] req nobody).1
          (fits-worker_key pod req clean ns image)
      ∙ ap (λ names. names.name) (names_of-worker_key pod clean)

  pub answer-ok_lem :
      (req : Request) (pod : Pod) (w : World E) → answer E req (ok pod) w ≡ lend E req pod w
  unfolding answer
  answer-ok_lem req pod w = refl

  -- A pod that another shell has borrowed is lent a second time: if it is ready and not being
  -- deleted when `processNextCluster` deals with a key of it that was queued earlier, the next
  -- `Borrow` for its namespace and image, when no other waiting worker fits, goes on to bind this pod
  -- to its own shell. The pod is assumed to have a name and a clean key, which does not wait, and the
  -- lister to give the pod both times.
  pub borrow-taken :
      (key : String) (pod : Pod) (req : Request) (w : World E) (s s' : E.State)
      → E.split_meta_namespace_key key ≡ ok (pod.namespace, pod.name)
      → E.lister_pod pod.namespace pod.name w.state ≡ (ok pod, s)
      → E.lister_pod pod.namespace pod.name s ≡ (ok pod, s')
      → pod.deletion_timestamp ≡ none
      → is_pod_ready pod ≡ true
      → HasCleanKey pod
      → is_empty pod.name ≡ false
      → none_fits (Queue.all w.worker_queue) req ≡ true
      → contains w.worker_queue.dirty (worker_key pod) ≡ false
      → pod.namespace ≡ req.namespace
      → web_tty_image pod.containers ≡ req.image
      → borrow E req (process_next_cluster E pool key w).1
        ≡ lend E req pod (record (taken key pod w s) { state = s' })
  borrow-taken key pod req w s s' split listed again live ready clean named_ nobody new ns image =
      ap (λ out. borrow E req out.1)
        (process_next_cluster-takes key pod.namespace pod.name pod w s split listed live ready)
      ∙ borrow-fits E req (taken key pod w s) (ap is_empty found ∙ named_)
      ∙ ap (λ out. answer E req out.0 (record (taken key pod w s) { state = out.1 })) second
      ∙ answer-ok_lem req pod (record (taken key pod w s) { state = s' })
    where
      found : find_worker (Queue.all (taken key pod w s).worker_queue) req ≡ pod.name
      found = named pod req w.worker_queue clean nobody new ns image

      second :
          E.lister_pod req.namespace
            (find_worker (Queue.all (taken key pod w s).worker_queue) req)
            s
          ≡ (ok pod, s')
      second = rw (found, ← ns) again
