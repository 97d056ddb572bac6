-- ===== src/WorkerPool/Running/Keeping.antt =====
-- What the actions on the two queues keep, the turns of the goroutines, callers and the informer keep.
use cloudtty.Base.{String, List, [], ◌∷◌, none, some, ◌≡◌, arith}
use cloudtty.Cluster.{Env, RetryIsLawful}
use cloudtty.Cluster.Monad.{World}
use cloudtty.WorkerPool.Lending.{Pool}
use cloudtty.WorkerPool.Keys.{worker_key}
use cloudtty.WorkerPool.Invariant.Rules.{IsKept}
use cloudtty.WorkerPool.Invariant.Lending.{borrow-Keeps, back-Keeps}
use cloudtty.WorkerPool.Invariant.Loops.{
  enqueue-Keeps, KeyMay, process_next_cluster-Keeps, handle_request_queue-Keeps,
  scale_in_worker_queue-Keeps,
}
use cloudtty.WorkerPool.Running.{
  Running, Choice, stops, notifies, borrows, backs, gets, goes_on, ticks, receives_worker,
  receives_client, handles, leaves, scales, leaves_scaling, goes_down, turn, Turns, here, next,
}

-- The keys of the workers that a choice adds to the worker queue may join it.
module _ (E : Env) (May : String → Type 0) where
  abbrev pub Allows : Choice → Type 0
  Allows (backs worker) = May (worker_key worker)
  Allows (gets (some key)) = KeyMay E May (E.split_meta_namespace_key key)
  Allows _ = Unit {0}

  abbrev pub AllAllowed : List Choice → Type 0
  AllAllowed [] = Unit {0}
  AllAllowed (c ∷ cs) = Allows c × AllAllowed cs

module _ (E : Env) (L : RetryIsLawful E) {P : World E → Type 0} {May : String → Type 0}
    (kept : IsKept P May) (pool : Pool) where
  pub turn-keeps :
      (c : Choice) (s t : Running E)
      → turn E pool c s ≡ some t
      → Allows E May c
      → P s.world
      → P t.world
  unfolding turn
  turn-keeps (notifies pod) s t e may h =
      ground (arith, kept.local.with_none _ ((enqueue-Keeps E L kept pool pod).at s.world h))
  turn-keeps (borrows req) s t e may h =
      ground (arith, kept.local.with_none _ ((borrow-Keeps E L kept req).at s.world h))
  turn-keeps (backs worker) s t e may h =
      ground (arith, kept.local.with_none _ ((back-Keeps E L kept pool worker may).at s.world h))
  turn-keeps (gets none) s t e may h = ground (arith, h)
  turn-keeps (gets (some key)) s t e may h = ground (
    arith,
    h,
    kept.local.with_none _ ((process_next_cluster-Keeps E L kept pool key may).at s.world h),
  )
  turn-keeps handles s t e may h =
      ground (arith, kept.local.with_none _ ((handle_request_queue-Keeps E L kept).at s.world h))
  turn-keeps scales s t e may h =
      ground
        (arith, kept.local.with_none _ ((scale_in_worker_queue-Keeps E L kept pool).at s.world h))
  turn-keeps stops s t e may h = ground (arith, h)
  turn-keeps goes_on s t e may h = ground (arith, h)
  turn-keeps ticks s t e may h = ground (arith, h)
  turn-keeps receives_worker s t e may h = ground (arith, h)
  turn-keeps receives_client s t e may h = ground (arith, h)
  turn-keeps leaves s t e may h = ground (arith, h)
  turn-keeps leaves_scaling s t e may h = ground (arith, h)
  turn-keeps goes_down s t e may h = ground (arith, h)

  pub Turns-keeps :
      {cs : List Choice} {s t : Running E}
      → Turns E pool s cs t
      → AllAllowed E May cs
      → P s.world
      → P t.world
  Turns-keeps here may h = h
  Turns-keeps {s = s} (next {t = t} c e p) (one, rest) h =
      Turns-keeps p rest (turn-keeps c s t e one h)
