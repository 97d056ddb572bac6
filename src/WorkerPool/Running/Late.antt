-- ===== src/WorkerPool/Running/Late.antt =====
-- A worker that becomes ready while the pool shuts down.
use cloudtty.Base.{
  String, Bool, suc, ◌≡◌, ◌≢◌, refl, ◌∙◌, sym, ap, true, false, List, [], none, some,
}
use cloudtty.Base.Result.{Result, ok}
use cloudtty.Objects.{Pod}
use cloudtty.Cluster.{Env}
use cloudtty.Cluster.Monad.{World}
use cloudtty.Pods.{is_pod_ready}
use cloudtty.WorkerPool.Lending.{Pool}
use cloudtty.WorkerPool.Serving.{process_next_cluster}
use cloudtty.WorkerPool.Serving.Taking.{process_next_cluster-takes, taken}
use cloudtty.WorkerPool.Running.{
  Running, getting, finishing, loop_returned, main_returned, Choice, gets, processed, signals, turn,
  Turns,
}
use cloudtty.WorkerPool.Running.Sending.{sender_stuck}

module _ (E : Env) (pool : Pool) where
  get_turn :
      (key : String) (s : Running E) (r : Result Bool) (w : World E)
      → s.crashed ≡ false
      → s.worker ≡ getting
      → process_next_cluster E pool key s.world ≡ (r, w)
      → turn E pool (gets (some key)) s ≡ some (processed s (r, w))
  unfolding turn
  get_turn key s r w live h e = rw (live, h, e) refl

  some-injective : {s t : Running E} → some s ≡ some t → s ≡ t
  some-injective h = cc

  -- If `tryHandleRequestQueue` has returned and the worker goroutine then gets the key of a pod that
  -- is ready and not being deleted, the worker goroutine stays at its send, and `run` does not return,
  -- in every sequence of turns from there. The lister is assumed to give the pod, and `run` not to
  -- have returned before.
  pub late_worker_stuck :
      {cs : List Choice} {t u : Running E} (key namespace name : String) (pod : Pod) (s : Running E)
      (state : E.State)
      → s.crashed ≡ false
      → s.main ≢ main_returned
      → s.worker ≡ getting
      → s.requests ≡ loop_returned
      → s.world.events ≡ []
      → E.split_meta_namespace_key key ≡ ok (namespace, name)
      → E.lister_pod namespace name s.world.state ≡ (ok pod, state)
      → pod.deletion_timestamp ≡ none
      → is_pod_ready pod ≡ true
      → turn E pool (gets (some key)) s ≡ some t
      → Turns E pool t cs u
      → (u.worker ≡ finishing 1) × (u.main ≢ main_returned)
  unfolding processed
  late_worker_stuck {t} key namespace name pod s state live up w gone quiet split listed kept ready
        e p =
      let (still, open_, _) = sender_stuck E pool 0 at_send unheard below p in (still, open_)
    where
      after : Running E
      after = processed s (ok true, taken E pool key pod s.world state)

      out : t ≡ after
      out = some-injective (
          sym e
          ∙ get_turn key s (ok true) (taken E pool key pod s.world state) live w (
              process_next_cluster-takes E pool key namespace name pod s.world state split listed
                kept ready))

      at_send : t.worker ≡ finishing 1
      at_send = ap (λ v. v.worker) out ∙ ap (λ calls. finishing (suc (signals calls))) quiet

      unheard : t.requests ≡ loop_returned
      unheard = ap (λ v. v.requests) out ∙ gone

      below : t.main ≢ main_returned
      below h = up (sym (ap (λ v. v.main) out) ∙ h)
