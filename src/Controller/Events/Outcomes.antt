-- ===== src/Controller/Events/Outcomes.antt =====
-- What `processNextItem` does with the outcome of a reconcile.
use cloudtty.Base.{String, true, List, [], ◌∷◌, ◌++◌, Option, none, some, ◌≡◌, ◌≢◌, refl}
use cloudtty.Base.Int.{ℤ}
use cloudtty.Base.Result.{panic, not_found, conflict, no_worker, failed, wrapped, Result, ok, err}
use cloudtty.Cluster.{Env}
use cloudtty.Cluster.Monad.{
  World, Event, ◌>>=◌, queue_call, add_after, add_rate_limited, forget, done,
}
use cloudtty.Controller.Sync.{Controller, sync_handler}
use cloudtty.Controller.Events.{settle_item, process_next_item}

module _ (E : Env) (c : Controller) where
  -- The calls on the work queue, the latest first.
  abbrev pub settled : String → Result (Option ℤ) → List Event
  settled key (err e) = queue_call c.queue (add_rate_limited key) ∷ []
  settled key (ok none) = []
  settled key (ok (some t)) =
      queue_call c.queue (add_after key t) ∷ queue_call c.queue (forget key) ∷ []

  settle_item_lem :
      (key : String) (r : Result (Option ℤ)) (v : World E)
      → r ≢ err panic
      → settle_item E c key r v ≡ (ok tt, record v { events = settled key r ++ v.events })
  unfolding settle_item ◌>>=◌
  settle_item_lem key (err panic) v h = absurd (h refl)
  settle_item_lem key (err not_found) v h = refl
  settle_item_lem key (err conflict) v h = refl
  settle_item_lem key (err no_worker) v h = refl
  settle_item_lem key (err (failed _)) v h = refl
  settle_item_lem key (err (wrapped _ _)) v h = refl
  settle_item_lem key (ok none) v h = refl
  settle_item_lem key (ok (some t)) v h = refl

  -- Unless reconciling panics, the key is done after it; before that a failed key is added again
  -- under the rate limit, and a key with a requeue time is forgotten and added after that time. A
  -- key that succeeds without one is not forgotten.
  pub process_next_item_settles :
      (key : String) (r : Result (Option ℤ)) (w v : World E)
      → sync_handler E c key w ≡ (r, v)
      → r ≢ err panic
      → process_next_item E c key w
        ≡ (ok true, record v { events = queue_call c.queue (done key) ∷ settled key r ++ v.events })
  unfolding process_next_item ◌>>=◌
  process_next_item_settles key r w v h quiet = rw (h, settle_item_lem key r v quiet) refl
