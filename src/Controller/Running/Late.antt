-- ===== src/Controller/Running/Late.antt =====
-- A shell that is reconciled while the operator shuts down.
use cloudtty.Base.{
  ℕ, suc, String, Bool, ◌≡◌, ◌≢◌, refl, sym, ◌∙◌, ap, true, false, List, [], ◌∷◌, none, some,
}
use cloudtty.Base.Result.{Result, ok}
use cloudtty.Objects.{CloudShell}
use cloudtty.Text.{is_empty}
use cloudtty.Queue
use cloudtty.Cluster.{Env}
use cloudtty.Cluster.Monad.{
  World, ◌>>=◌, Request, queue_call, done, match_request_signal, string_item,
}
use cloudtty.WorkerPool.Matching.{find_worker}
use cloudtty.WorkerPool.Running.{getting, finishing, loop_returned, main_returned, settled, signals}
use cloudtty.Controller.Labels.{pod_label}
use cloudtty.Controller.Defaults.{ensure_cloud_shell}
use cloudtty.Controller.Sync.{Controller, sync_handler, sync_listed, sync_live}
use cloudtty.Controller.Sync.Waiting.{sync_cloud_shell-waits, waits, request_of}
use cloudtty.Controller.Events.{process_next_item}
use cloudtty.Controller.Events.Outcomes.{process_next_item_settles}
use cloudtty.Controller.Running.{Operator, Move, reconciles, reconciled, worker_at, move, Moves}
use cloudtty.Controller.Running.Workers.{put_worker-same}
use cloudtty.Controller.Running.Shutdown.{HangsAt, Moves-HangsAt}

module _ (E : Env) (c : Controller) where
  -- The key of a shell for which there is no worker, and what reconciling reads and writes before it
  -- looks for one: `current` is the shell with its defaults, `v` the world then.
  pub record IsUnserved (key : String) (current : CloudShell) (selector : String) (w v : World E)
      : Type 0 where
    pub namespace : String
    pub name : String
    pub shell : CloudShell
    pub state : E.State
    pub split : E.split_meta_namespace_key key ≡ ok (namespace, name)
    pub listed : E.lister_shell namespace name w.state ≡ (ok shell, state)
    pub kept : shell.deletion_timestamp ≡ none
    pub ensured :
        ensure_cloud_shell E c.cloudshell_image shell (record w { state = state }) ≡ (ok current, v)
    pub no_ttl : current.spec.ttl_seconds_after_started ≡ none
    pub unbound : is_empty (pod_label current) ≡ true
    pub printed : E.json_marshal c.node_selector ≡ ok selector
    pub nobody :
        is_empty (find_worker (Queue.all v.worker_queue) (request_of E c current selector)) ≡ true

  sync_live-waits :
      (key : String) (current : CloudShell) (selector : String) (w v : World E)
      (h : IsUnserved key current selector w v)
      → sync_live E c h.shell.deletion_timestamp h.shell (record w { state = h.state })
        ≡ (ok none, waits E c v (request_of E c current selector))
  unfolding sync_live ◌>>=◌
  sync_live-waits key current selector w v h =
      ap (λ deleted. sync_live E c deleted h.shell (record w { state = h.state })) h.kept
      ∙ rw
          (
            h.ensured,
            sync_cloud_shell-waits E c current selector v h.no_ttl h.unbound h.printed h.nobody,
          )
          refl

  pub sync_handler-waits :
      (key : String) (current : CloudShell) (selector : String) (w v : World E)
      → IsUnserved key current selector w v
      → sync_handler E c key w ≡ (ok none, waits E c v (request_of E c current selector))
  unfolding sync_handler sync_listed ◌>>=◌
  sync_handler-waits key current selector w v h =
      rw (h.split, h.listed) (sync_live-waits key current selector w v h)

  some-injective : {o p : Operator E} → some o ≡ some p → o ≡ p
  some-injective h = cc

  pub reconcile_move :
      (i : ℕ) (key : String) (o : Operator E) (r : Result Bool) (w : World E)
      → o.pool.crashed ≡ false
      → worker_at i o.workers ≡ some getting
      → process_next_item E c key o.pool.world ≡ (r, w)
      → move E c (reconciles i key) o ≡ some (reconciled i o (r, w))
  unfolding move
  reconcile_move i key o r w live at e = rw (live, at, e) refl

  -- If the pool's `tryHandleRequestQueue` has returned and a worker of the controller then reconciles
  -- a shell that is not bound and for which no worker waits, that worker stays at its send in
  -- `Borrow`, and the controller's `Run` does not return, in every sequence of moves from there. The
  -- shell is assumed to have no time to live, and `Run` not to have returned before.
  pub late_reconcile_hangs :
      {ms : List Move} {p q : Operator E} (i : ℕ) (key : String) (current : CloudShell)
      (selector : String) (o : Operator E) (v : World E)
      → o.pool.crashed ≡ false
      → o.main ≢ main_returned
      → worker_at i o.workers ≡ some getting
      → o.pool.requests ≡ loop_returned
      → IsUnserved key current selector o.pool.world v
      → v.events ≡ []
      → move E c (reconciles i key) o ≡ some p
      → Moves E c p ms q
      → HangsAt i 0 q
  unfolding reconciled settled
  late_reconcile_hangs {p} i key current selector o v live up at gone shell quiet e rest =
      Moves-HangsAt E c i 0 rest (record {
        sends =
            ap (λ q. worker_at i q.workers) after
            ∙ put_worker-same o.workers i _ getting at
            ∙ ap (λ calls. some (finishing (suc (signals calls)))) quiet;
        unheard = ap (λ q. q.pool.requests) after ∙ gone;
        waits = λ e. up (sym (ap (λ q. q.main) after) ∙ e);
      })
    where
      req : Request
      req = request_of E c current selector

      done_world : World E
      done_world = record (waits E c v req) {
        events = queue_call c.queue (done key) ∷ match_request_signal ∷ v.events;
      }

      outcome : process_next_item E c key o.pool.world ≡ (ok true, done_world)
      outcome =
          process_next_item_settles E c key (ok none) o.pool.world (waits E c v req)
            (sync_handler-waits key current selector o.pool.world v shell) (λ h. cc)

      after : p ≡ reconciled i o (ok true, done_world)
      after = some-injective (sym e ∙ reconcile_move i key o (ok true) done_world live at outcome)
