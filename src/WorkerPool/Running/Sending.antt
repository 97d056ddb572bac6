-- ===== src/WorkerPool/Running/Sending.antt =====
-- Sends on `matchRequestSignal` (pkg/workerpool/worker_pool.go): who receives them, and when.
use cloudtty.Base.{
  ℕ, zero, suc, ◌≤◌, Bool, ◌≡◌, ◌≢◌, refl, ◌∙◌, true, false, List, [], some, arith, inl, inr,
  Bool-cases,
}
use cloudtty.Cluster.{Env}
use cloudtty.WorkerPool.Lending.{Pool}
use cloudtty.WorkerPool.Serving.{handle_request_queue}
use cloudtty.WorkerPool.Running.{
  panics, Running, finishing, Loop, selecting, handling, loop_returned, main_returned, Choice,
  receives_worker, handles, goes_on, leaves, leaves_scaling, goes_down, turn, Turns, here, next,
}

-- The turns of the pool's goroutines from which `run` comes to its end: no `Get`, no informer event, no
-- call of `Borrow` or `Back`, no tick and no stop is among them.
abbrev pub winds_down : Choice → Bool
winds_down receives_worker = true
winds_down handles = true
winds_down goes_on = true
winds_down leaves = true
winds_down leaves_scaling = true
winds_down goes_down = true
winds_down _ = false

module _ (E : Env) (pool : Pool) where
  -- The worker goroutine is at a send, and the goroutine that receives has returned.
  record IsStuck (n : ℕ) (s : Running E) : Type 0 where
    pub sends : s.worker ≡ finishing (suc n)
    pub unheard : s.requests ≡ loop_returned

  record StillStuck (n : ℕ) (s t : Running E) : Type 0 where
    pub stuck : IsStuck n t
    pub waits : s.main ≢ main_returned → t.main ≢ main_returned
    pub clients_wait : s.clients ≤ t.clients

  turn-StillStuck :
      (n : ℕ) (c : Choice) (s t : Running E)
      → turn E pool c s ≡ some t
      → IsStuck n s
      → StillStuck n s t
  unfolding turn
  turn-StillStuck n c s t e h = ground arith

  -- Once `tryHandleRequestQueue` has returned while the worker goroutine is at a send, it stays at that
  -- send whatever the goroutines, the callers and the informer do, `run` does not return, and no
  -- caller that is at a send gets past it.
  pub sender_stuck :
      {cs : List Choice} {s t : Running E} (n : ℕ)
      → s.worker ≡ finishing (suc n)
      → s.requests ≡ loop_returned
      → s.main ≢ main_returned
      → Turns E pool s cs t
      → (t.worker ≡ finishing (suc n)) × (t.main ≢ main_returned) × (s.clients ≤ t.clients)
  sender_stuck n sends unheard waits here = (sends, waits, omega arith)
  sender_stuck {s} n sends unheard waits (next {t} c e p) =
      let one = turn-StillStuck n c s t e (record { sends = sends; unheard = unheard }) in
      let (still, open_, more) =
        sender_stuck n one.stuck.sends one.stuck.unheard (one.waits waits) p in
      (still, open_, omega (arith, more, one.clients_wait))

  -- By turns of the pool's own goroutines alone that start no new work, `s` can go on to a state for
  -- which `P` holds, or to one at which `handleRequestQueue` has been entered and panics.
  pub data CanReach (P : Running E → Type 0) : Running E → Type 0 where
    now : {s : Running E} → P s → CanReach P s
    panicked :
        {s : Running E}
        → s.requests ≡ handling
        → panics (handle_request_queue E s.world).0 ≡ true
        → CanReach P s
    later :
        {s t : Running E} (c : Choice)
        → winds_down c ≡ true
        → turn E pool c s ≡ some t
        → CanReach P t
        → CanReach P s

  -- What a send and its receipt leave as it was.
  pub record SameRest (s t : Running E) : Type 0 where
    pub same_stopped : t.stopped ≡ s.stopped
    pub same_main : t.main ≡ s.main
    pub same_scaling : t.scaling ≡ s.scaling

  same_rest :
      (o s t : Running E)
      → SameRest o s
      → t.stopped ≡ s.stopped
      → t.main ≡ s.main
      → t.scaling ≡ s.scaling
      → SameRest o t
  same_rest o s t h a b c = record {
    same_stopped = a ∙ h.same_stopped;
    same_main = b ∙ h.same_main;
    same_scaling = c ∙ h.same_scaling;
  }

  -- No send of the worker goroutine is left, and the receiver is at its select.
  pub record IsDelivered (s t : Running E) : Type 0 where
    pub sent : t.worker ≡ finishing 0
    pub at_select : t.requests ≡ selecting
    pub rest : SameRest s t
    pub live : t.crashed ≡ false

  abbrev pub handled : Running E → Running E
  handled s = record s {
    world = record (handle_request_queue E s.world).1 { events = [] };
    crashed = panics (handle_request_queue E s.world).0;
    requests = selecting;
  }

  pub handle_turn :
      (s : Running E)
      → s.crashed ≡ false
      → s.requests ≡ handling
      → turn E pool handles s ≡ some (handled s)
  unfolding turn
  handle_turn s live h = ground arith

  receive_turn :
      (s : Running E) (n : ℕ)
      → s.crashed ≡ false
      → s.requests ≡ selecting
      → s.worker ≡ finishing (suc n)
      → turn E pool receives_worker s
        ≡ some (record s { requests = handling; worker = finishing n })
  unfolding turn
  receive_turn s n live r w = ground arith

  -- The handler returns, and the rest follows if it has not panicked.
  after_handling :
      (P : Running E → Type 0) (s : Running E)
      → s.crashed ≡ false
      → s.requests ≡ handling
      → ((handled s).crashed ≡ false → CanReach P (handled s))
      → CanReach P s
  after_handling P s live r go = elim (Bool-cases (handled s).crashed) [
    | inl bad ↦ panicked r bad
    | inr good ↦ later handles refl (handle_turn s live r) (go good)
  ]

  deliver :
      (n : ℕ) (o s : Running E)
      → SameRest o s
      → s.crashed ≡ false
      → s.requests ≡ selecting
      → s.worker ≡ finishing n
      → CanReach (IsDelivered o) s
  deliver zero o s same live r w =
      now (record { sent = w; at_select = r; rest = same; live = live })
  deliver (suc n) o s same live r w = later receives_worker refl (receive_turn s n live r w) (
      after_handling (IsDelivered o) _ live refl
        (λ good. deliver n o _ (same_rest o s _ same refl refl refl) good refl refl))

  -- While `tryHandleRequestQueue` has not returned, every send of the worker goroutine can be received,
  -- by turns of these two goroutines that leave the others where they are: from any state in which the
  -- worker goroutine has sends left there is a path to one in which it has none and the receiver is
  -- at its select again, or `handleRequestQueue` panics on the way.
  pub sends_are_received :
      (n : ℕ) (s : Running E)
      → s.crashed ≡ false
      → s.worker ≡ finishing n
      → s.requests ≢ loop_returned
      → CanReach (IsDelivered s) s
  sends_are_received n s live w r = from_loop s.requests refl
    where
      same : SameRest s s
      same = record { same_stopped = refl; same_main = refl; same_scaling = refl }

      from_loop : (l : Loop) → s.requests ≡ l → CanReach (IsDelivered s) s
      from_loop selecting e = deliver n s s same live e w
      from_loop handling e =
          after_handling (IsDelivered s) s live e
            (λ good. deliver n s _ (same_rest s s _ same refl refl refl) good refl w)
      from_loop loop_returned e = absurd (r e)
