-- ===== src/Cluster/Monad/Success.antt =====
-- What a block that succeeds has done.
use cloudtty.Base.{◌≡◌, ◌≢◌, refl, ap, arith}
use cloudtty.Base.Result.{Error, Result, ok, err}
use cloudtty.Cluster.{Env}
use cloudtty.Cluster.Monad.{World, M, pure, fail, attempt, continue, ◌>>=◌}

-- A block that succeeds has a first step that succeeds: what follows from both, follows.
pub bind-inv :
    {E : Env} {A B C : Type 0} {b : B} {w w' : World E} (m : M E A) (f : A → M E B)
    → (m >>= f) w ≡ (ok b, w')
    → ((a : A) (v : World E) → m w ≡ (ok a, v) → f a v ≡ (ok b, w') → C)
    → C
unfolding ◌>>=◌
bind-inv {E} {A} {B} {C} {b} {w} {w'} m f h go = from_step (m w) refl h
  where
    from_step : (u : Result A × World E) → m w ≡ u → continue u.0 f u.1 ≡ (ok b, w') → C
    from_step (ok a, v) e k = go a v e k
    from_step (err e', v) e k = cc

pub pure-same :
    {E : Env} {A : Type 0} (a b : A) (v w : World E) → pure a v ≡ (ok b, w) → (a ≡ b) × (v ≡ w)
unfolding pure
pure-same a b v w h = (ground arith, ap (λ x. x.1) h)

pub pair-same : {A B : Type 0} {a b : A} {x y : B} → a ≡ b → x ≡ y → ◌≡◌ {A = A × B} (a, x) (b, y)
pair-same h k = cc

pub fail-ne-ok :
    {E : Env} {A : Type 0} (e : Error) (a : A) (v w : World E) → fail {A = A} e v ≢ (ok a, w)
unfolding fail
fail-ne-ok e a v w h = cc

pub attempt-inv :
    {E : Env} {A : Type 0} (m : M E A) (a : Result A) (x y : World E)
    → attempt m x ≡ (ok a, y)
    → m x ≡ (a, y)
unfolding attempt
attempt-inv {E} {A} m a x y h = of_pair (m x) h
  where
    of_pair :
        (u : Result A × World E)
        → ◌≡◌ {A = Result (Result A) × World E} (ok u.0, u.1) (ok a, y)
        → u ≡ (a, y)
    of_pair (b, z) e = ground arith
