-- ===== src/Controller/Running/Workers.antt =====
-- The list of the controller's workers: a worker after another one is put in its place.
use cloudtty.Base.{
  ℕ, zero, suc, ◌+◌, ◌≡◌, ◌≢◌, refl, true, List, [], ◌∷◌, some, ◌⊎◌, inl, inr, arith,
}
use cloudtty.WorkerPool.Running.{Worker, getting, worker_returned, finishing}
use cloudtty.Controller.Running.{worker_at, put_worker, all_returned}

-- The moves that a worker still needs when the stop channel is closed and the queue shut down.
abbrev pub left : Worker → ℕ
left getting = 1
left (finishing n) = suc n
left worker_returned = 0

abbrev pub all_left : List Worker → ℕ
all_left [] = 0
all_left (w ∷ ws) = left w + all_left ws

-- A worker in another state stands elsewhere.
pub put_worker-keeps :
    (ws : List Worker) (i j : ℕ) (v : Worker)
    → worker_at i ws ≢ worker_at j ws
    → worker_at i (put_worker j v ws) ≡ worker_at i ws
put_worker-keeps [] i j v h = refl
put_worker-keeps (w ∷ ws) zero zero v h = absurd (h refl)
put_worker-keeps (w ∷ ws) zero (suc j) v h = refl
put_worker-keeps (w ∷ ws) (suc i) zero v h = refl
put_worker-keeps (w ∷ ws) (suc i) (suc j) v h = put_worker-keeps ws i j v h

pub put_worker-cases :
    (ws : List Worker) (i j : ℕ) (v w : Worker)
    → worker_at i (put_worker j v ws) ≡ some w
    → (w ≡ v) ⊎ (worker_at i ws ≡ some w)
put_worker-cases [] i j v w h = inr h
put_worker-cases (x ∷ ws) zero zero v w h = inl (cc)
put_worker-cases (x ∷ ws) zero (suc j) v w h = inr h
put_worker-cases (x ∷ ws) (suc i) zero v w h = inr h
put_worker-cases (x ∷ ws) (suc i) (suc j) v w h = put_worker-cases ws i j v w h

pub all_returned-at :
    (ws : List Worker) (i : ℕ) (w : Worker)
    → all_returned ws ≡ true
    → worker_at i ws ≡ some w
    → w ≡ worker_returned
all_returned-at [] i w h e = cc
all_returned-at (worker_returned ∷ ws) zero w h e = cc
all_returned-at (worker_returned ∷ ws) (suc i) w h e = all_returned-at ws i w h e
all_returned-at (getting ∷ ws) i w h e = cc
all_returned-at (finishing n ∷ ws) i w h e = cc

pub put_worker-left :
    (ws : List Worker) (i : ℕ) (v w : Worker)
    → worker_at i ws ≡ some w
    → all_left (put_worker i v ws) + left w ≡ all_left ws + left v
put_worker-left [] i v w h = cc
put_worker-left (x ∷ ws) zero v w h = let same : x ≡ w = cc in rw same (omega arith)
put_worker-left (x ∷ ws) (suc i) v w h = omega (arith, put_worker-left ws i v w h)

-- A worker that has not returned.
pub record Remains (ws : List Worker) : Type 0 where
  pub place : ℕ
  pub worker : Worker
  pub stands : worker_at place ws ≡ some worker
  pub remains : worker ≢ worker_returned

pub returned-or-Remains : (ws : List Worker) → (all_returned ws ≡ true) ⊎ Remains ws
returned-or-Remains [] = inl refl
returned-or-Remains (getting ∷ ws) =
    inr (record { place = 0; worker = getting; stands = refl; remains = λ e. cc })
returned-or-Remains (finishing n ∷ ws) =
    inr (record { place = 0; worker = finishing n; stands = refl; remains = λ e. cc })
returned-or-Remains (worker_returned ∷ ws) = elim (returned-or-Remains ws) [
  | inl e ↦ inl e
  | inr r ↦
      inr (record {
        place = suc (r.place);
        worker = r.worker;
        stands = r.stands;
        remains = r.remains;
      })
]

pub put_worker-same :
    (ws : List Worker) (i : ℕ) (v w : Worker)
    → worker_at i ws ≡ some w
    → worker_at i (put_worker i v ws) ≡ some v
put_worker-same [] i v w h = cc
put_worker-same (x ∷ ws) zero v w h = refl
put_worker-same (x ∷ ws) (suc i) v w h = put_worker-same ws i v w h
