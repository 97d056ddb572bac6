-- ===== src/Cluster/Monad/Keeps.antt =====
-- What an action keeps, whether it returns or fails: one rule for each way to build an action.
use cloudtty.Base.{Bool, true, false, [], ◌∷◌, if◌then◌else◌}
use cloudtty.Base.Result.{Error, Result, ok, err}
use cloudtty.Objects.{Pod, CloudShell}
use cloudtty.Cluster.{Env, Backoff, RetryIsLawful}
use cloudtty.Cluster.Monad.{
  Event, World, M, pure, fail, attempt, from_result, call, query, emit, workers, requests,
  write_pod, write_shell, save_shell, retry_on_conflict, continue, ◌>>=◌,
}

pub record Keeps {E : Env} {A : Type 0} (P : World E → Type 0) (m : M E A) : Type 0 where
  pub at : (w : World E) → P w → P (m w).1

-- The property does not read the cluster's state and the calls made.
pub record IsLocal {E : Env} (P : World E → Type 0) : Type 0 where
  pub with_state : (w : World E) (s : E.State) → P w → P (record w { state = s })
  pub with_event : (w : World E) (e : Event) → P w → P (record w { events = e ∷ w.events })
  pub with_none : (w : World E) → P w → P (record w { events = [] })

module _ {E : Env} {P : World E → Type 0} (l : IsLocal P) {A : Type 0} where
  pub Keeps-pure : (a : A) → Keeps P (pure {E = E} a)
  unfolding ◌>>=◌
  Keeps-pure a = record { at = λ w h. h }

  pub Keeps-fail : (e : Error) → Keeps P (fail {E = E} {A = A} e)
  unfolding ◌>>=◌
  Keeps-fail e = record { at = λ w h. h }

  pub Keeps-from_result : (r : Result A) → Keeps P (from_result {E = E} r)
  unfolding ◌>>=◌
  Keeps-from_result r = record { at = λ w h. h }

  pub Keeps-attempt : (m : M E A) → Keeps P m → Keeps P (attempt m)
  unfolding ◌>>=◌
  Keeps-attempt m k = record { at = k.at }

  pub Keeps-call : (f : E.State → Result A × E.State) → Keeps P (call {E = E} f)
  unfolding ◌>>=◌
  Keeps-call f = record { at = λ w h. l.with_state w _ h }

  pub Keeps-query : (f : E.State → A × E.State) → Keeps P (query {E = E} f)
  unfolding ◌>>=◌
  Keeps-query f = record { at = λ w h. l.with_state w _ h }

  pub Keeps-if : (b : Bool) (m n : M E A) → Keeps P m → Keeps P n → Keeps P (if b then m else n)
  Keeps-if true m n km kn = km
  Keeps-if false m n km kn = kn

module _ {E : Env} {P : World E → Type 0} (l : IsLocal P) where
  pub Keeps-emit : (e : Event) → Keeps P (emit {E = E} e)
  unfolding ◌>>=◌
  Keeps-emit e = record { at = λ w h. l.with_event w e h }

  pub Keeps-workers : Keeps P (workers {E = E})
  unfolding ◌>>=◌
  Keeps-workers = record { at = λ w h. h }

  pub Keeps-requests : Keeps P (requests {E = E})
  unfolding ◌>>=◌
  Keeps-requests = record { at = λ w h. h }

  pub Keeps-write_pod : (pod : Pod) → Keeps P (write_pod {E = E} pod)
  unfolding ◌>>=◌
  Keeps-write_pod pod = record { at = λ w h. l.with_state w _ h }

  pub Keeps-write_shell : (shell : CloudShell) → Keeps P (write_shell {E = E} shell)
  unfolding ◌>>=◌
  Keeps-write_shell shell = record { at = λ w h. l.with_state w _ h }

  pub Keeps-retry_on_conflict :
      RetryIsLawful E
      → (b : Backoff) (m : M E (Unit {0})) → Keeps P m
      → Keeps P (retry_on_conflict b m)
  unfolding retry_on_conflict
  Keeps-retry_on_conflict L b m k = record {
    at = λ w h. L.retry-last b (World E) m P (λ t. P t.1) (λ v q. (k.at v q, λ e. k.at v q)) w h;
  }

module _ {E : Env} {P : World E → Type 0} {A B : Type 0} where
  continue-Keeps :
      (r : Result A) (f : A → M E B) (w : World E)
      → ((a : A) → Keeps P (f a))
      → P w
      → P (continue r f w).1
  unfolding continue
  continue-Keeps (ok a) f w k h = (k a).at w h
  continue-Keeps (err e) f w k h = h

  pub Keeps-bind :
      (m : M E A) (f : A → M E B) → Keeps P m → ((a : A) → Keeps P (f a)) → Keeps P (m >>= f)
  unfolding ◌>>=◌
  Keeps-bind m f km kf = record { at = λ w h. continue-Keeps _ f _ kf (km.at w h) }

module _ {E : Env} {P : World E → Type 0} (l : IsLocal P) where
  pub Keeps-save_shell : (shell : CloudShell) → Keeps P (save_shell {E = E} shell)
  unfolding save_shell
  Keeps-save_shell shell = Keeps-bind _ _ (Keeps-write_shell l shell) (λ _.
      Keeps-bind _ _ (Keeps-call l (E.shells.update shell))
        (λ updated. Keeps-bind _ _ (Keeps-write_shell l updated) (λ _. Keeps-pure l updated)))

pub ruleset keeps_rules = (
  Keeps-pure, Keeps-fail, Keeps-from_result, Keeps-attempt, Keeps-call, Keeps-query, Keeps-if,
  Keeps-emit, Keeps-workers, Keeps-requests, Keeps-write_pod, Keeps-write_shell, Keeps-save_shell,
  Keeps-retry_on_conflict, Keeps-bind,
)
