-- ===== src/WorkerPool/Running/Stopping.antt =====
-- The shutdown of the pool's goroutines (`worker` and `run` of pkg/workerpool/worker_pool.go).
use cloudtty.Base.{
  ℕ, suc, ◌+◌, ◌≤◌, ◌≡◌, ◌≢◌, refl, sym, ◌∙◌, true, false, List, [], ◌∷◌, some, arith,
}
use cloudtty.Cluster.{Env}
use cloudtty.WorkerPool.Lending.{Pool}
use cloudtty.WorkerPool.Running.{
  Running, Worker, getting, finishing, worker_returned, selecting, loop_returned, Scaling, ticking,
  scaling_returned, Main, running, stopping, main_returned, Choice, gets, goes_on, leaves,
  leaves_scaling, goes_down, turn, Turns, here, next,
}
use cloudtty.WorkerPool.Running.Sending.{
  CanReach, now, panicked, later, IsDelivered, sends_are_received,
}

-- The turns that are the worker goroutine's own.
abbrev pub worker_turns : List Choice → ℕ
worker_turns [] = 0
worker_turns (gets _ ∷ cs) = suc (worker_turns cs)
worker_turns (goes_on ∷ cs) = suc (worker_turns cs)
worker_turns (_ ∷ cs) = worker_turns cs

-- What is left of the loop of `worker` when the stop channel is closed.
abbrev stage : Worker → ℕ
stage getting = 2
stage (finishing _) = 1
stage worker_returned = 0

stage-le : (w : Worker) → stage w ≤ 2
stage-le w = ground arith

module _ (E : Env) (pool : Pool) where
  turn-stage :
      (c : Choice) (s t : Running E) (cs : List Choice)
      → turn E pool c s ≡ some t
      → s.stopped ≡ true
      → (t.stopped ≡ true)
        × (worker_turns (c ∷ cs) + stage t.worker ≤ worker_turns cs + stage s.worker)
  unfolding turn
  turn-stage c s t cs e h = ground arith

  worker_stage :
      {cs : List Choice} {s t : Running E}
      → s.stopped ≡ true
      → Turns E pool s cs t
      → worker_turns cs + stage t.worker ≤ stage s.worker
  worker_stage h here = omega arith
  worker_stage {s} h (next {t} {cs} c e p) =
      let (still, one) = turn-stage c s t cs e h in omega (arith, one, worker_stage still p)

  -- After the stop channel is closed the worker goroutine takes at most two turns more of those that
  -- are not sends, in every sequence of turns of all goroutines, callers and the informer.
  pub worker_stops :
      {cs : List Choice} {s t : Running E}
      → s.stopped ≡ true
      → Turns E pool s cs t
      → worker_turns cs ≤ 2
  worker_stops {s} h p = omega (arith, worker_stage h p, stage-le (s.worker))

  CanReach-bind :
      {P Q : Running E → Type 0} {s : Running E}
      → CanReach E pool P s
      → ((t : Running E) → P t → CanReach E pool Q t)
      → CanReach E pool Q s
  CanReach-bind {s} (now p) f = f s p
  CanReach-bind (panicked h bad) f = panicked h bad
  CanReach-bind (later c w e r) f = later c w e (CanReach-bind r f)

  abbrev pub HasReturned : Running E → Type 0
  HasReturned t = t.main ≡ main_returned

  -- `run` at `waitGroup.Wait`, with the three goroutines at their end.
  wait_returns :
      (s : Running E)
      → s.crashed ≡ false
      → s.main ≢ running
      → s.worker ≡ worker_returned
      → s.requests ≡ loop_returned
      → s.scaling ≡ scaling_returned
      → CanReach E pool HasReturned s
  unfolding turn
  wait_returns s live m w r sc = from_main s.main refl
    where
      last_turn :
          s.main ≡ stopping → turn E pool goes_down s ≡ some (record s { main = main_returned })
      last_turn e = ground arith

      from_main : (m : Main) → s.main ≡ m → CanReach E pool HasReturned s
      from_main running e = absurd (m e)
      from_main stopping e = later goes_down refl (last_turn e) (now refl)
      from_main main_returned e = now e

  leave_scaling_returns :
      (s : Running E)
      → s.crashed ≡ false
      → s.stopped ≡ true
      → s.main ≢ running
      → s.worker ≡ worker_returned
      → s.requests ≡ loop_returned
      → CanReach E pool HasReturned s
  unfolding turn
  leave_scaling_returns s live h m w r = from_scaling s.scaling refl
    where
      one_turn :
          s.scaling ≡ ticking
          → turn E pool leaves_scaling s ≡ some (record s { scaling = scaling_returned })
      one_turn e = ground arith

      from_scaling : (k : Scaling) → s.scaling ≡ k → CanReach E pool HasReturned s
      from_scaling ticking e =
          later leaves_scaling refl (one_turn e) (wait_returns _ live m w r refl)
      from_scaling scaling_returned e = wait_returns s live m w r e

  leave_requests_turn :
      (s : Running E)
      → s.crashed ≡ false
      → s.stopped ≡ true
      → s.requests ≡ selecting
      → turn E pool leaves s ≡ some (record s { requests = loop_returned })
  unfolding turn
  leave_requests_turn s live h r = ground arith

  check_stop_turn :
      (s : Running E)
      → s.crashed ≡ false
      → s.stopped ≡ true
      → s.worker ≡ finishing 0
      → turn E pool goes_on s ≡ some (record s { worker = worker_returned })
  unfolding turn
  check_stop_turn s live h w = ground arith

  -- When the stop channel is closed, `run` has called `ShutDown`, the worker goroutine is past its `Get`
  -- and `tryHandleRequestQueue` has not returned, whatever sends are left: by turns of the pool's own
  -- goroutines alone, with no informer event, no call from outside, no tick and no further `Get`, a
  -- state can be reached at which `run` has returned, or `handleRequestQueue` panics.
  pub run_can_return :
      (n : ℕ) (s : Running E)
      → s.crashed ≡ false
      → s.stopped ≡ true
      → s.main ≢ running
      → s.worker ≡ finishing n
      → s.requests ≢ loop_returned
      → CanReach E pool HasReturned s
  run_can_return n s live h m w r =
      CanReach-bind (sends_are_received E pool n s live w r) then_leave
    where
      then_leave : (t : Running E) → IsDelivered E pool s t → CanReach E pool HasReturned t
      then_leave t d =
          let stopped : t.stopped ≡ true = d.rest.same_stopped ∙ h in
          later goes_on refl (check_stop_turn t d.live stopped d.sent) (
            later leaves refl (leave_requests_turn _ d.live stopped d.at_select) (
              leave_scaling_returns _ d.live stopped (λ e. m (sym d.rest.same_main ∙ e)) refl refl))
