-- ===== src/Controller/Running/Finishing.antt =====
-- The controller's `Run` can return while the pool's `tryHandleRequestQueue` still receives.
use cloudtty.Base.{suc, ◌≤◌, Bool, false, ◌≡◌, true, false, some}
use cloudtty.Cluster.{Env}
use cloudtty.WorkerPool.Serving.{handle_request_queue}
use cloudtty.WorkerPool.Running.{panics, selecting, handling, stopping, main_returned, handles}
use cloudtty.Controller.Sync.{Controller}
use cloudtty.Controller.Running.{
  Operator, Move, of_pool, finds_shut, is_heard, selects, shuts_down, move,
}
use cloudtty.Controller.Running.Workers.{all_left}

-- The moves from which `Run` comes to its end: no informer event, no call from outside, no `Get` that
-- gives a key, no reconcile and no tick is among them.
abbrev pub winds_down : Move → Bool
winds_down (of_pool handles) = true
winds_down (finds_shut _) = true
winds_down (is_heard _) = true
winds_down (selects _) = true
winds_down shuts_down = true
winds_down _ = false

module _ (E : Env) (c : Controller) where
  -- By moves of the goroutines that start no new work, `o` can go on to a state for which `P` holds,
  -- or to one at which `handleRequestQueue` has been entered and panics.
  pub data CanReach (P : Operator E → Type 0) : Operator E → Type 0 where
    now : {o : Operator E} → P o → CanReach P o
    panicked :
        {o : Operator E}
        → o.pool.requests ≡ handling
        → panics (handle_request_queue E o.pool.world).0 ≡ true
        → CanReach P o
    later :
        {o p : Operator E} (m : Move)
        → winds_down m ≡ true
        → move E c m o ≡ some p
        → CanReach P p
        → CanReach P o

  abbrev pub HasEnded : Operator E → Type 0
  HasEnded o = o.main ≡ main_returned

  -- After the stop, with `ShutDown` called.
  record GoesDown (o : Operator E) : Type 0 where
    pub live : o.pool.crashed ≡ false
    pub stopped : o.pool.stopped ≡ true
    pub down : o.main ≡ stopping

  -- Where the operator can come to by a move of a worker, it goes on.
  GoesOn : Operator E → Type 0
  GoesOn o =
      (p : Operator E)
      → GoesDown p
      → p.pool.requests ≡ selecting
      → suc (all_left p.workers) ≤ all_left o.workers
      → CanReach HasEnded p
