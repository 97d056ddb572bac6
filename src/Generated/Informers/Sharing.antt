-- ===== src/Generated/Informers/Sharing.antt =====
-- The informers of a factory are shared, and started once.
use cloudtty.Base.{
  ℕ, ◌≤◌, ◌≡◌, refl, ◌∙◌, ap, String, Bool, true, false, List, [], ◌∷◌, Option, none, some,
  if◌then◌else◌, ◌==◌, eq_iff, eq_refl, arith, inl, inr, Bool-cases, map,
}
use cloudtty.Base.Dict.{lookup, lookup-insert}
use cloudtty.Generated.Informers.{
  Informer, Factory, FactoryOption, with_custom_resync_config, with_tweak_list_options,
  with_namespace, apply_options, new_shared_informer_factory_with_options, is_started,
  start_informer, start_informers, start, shutdown, NewInformer, make_informer, found_or_made,
  informer_for,
}
use cloudtty.Generated.Informers.Soundness.{
  IsSound, runs, Call, asks, starts, shuts, step, run, run-IsSound, informer_for-IsSound,
  start-IsSound, start_informer-informers,
}

-- The options that the package offers.
pub data Setting : Type 0 where
  namespaced : String → Setting
  tweaked : Option ℕ → Setting
  resynced : List (String × ℕ) → Setting

abbrev pub option_of : Setting → FactoryOption
option_of (namespaced namespace) = with_namespace namespace
option_of (tweaked tweak) = with_tweak_list_options tweak
option_of (resynced config) = with_custom_resync_config config

-- No informer has been made.
abbrev IsUnused : Factory → Type 0
IsUnused f =
    (f.informers ≡ []) × (f.started_informers ≡ []) × (f.running ≡ []) × (f.shutting_down ≡ false)

option_of-IsUnused : (o : Setting) (f : Factory) → IsUnused f → IsUnused (option_of o f)
unfolding with_namespace with_tweak_list_options with_custom_resync_config
option_of-IsUnused (namespaced _) f h = h
option_of-IsUnused (tweaked _) f h = h
option_of-IsUnused (resynced _) f h = h

apply_options-IsUnused :
    (os : List Setting) (f : Factory) → IsUnused f → IsUnused (apply_options (map option_of os) f)
unfolding apply_options
apply_options-IsUnused [] f h = h
apply_options-IsUnused (o ∷ os) f h =
    apply_options-IsUnused os (option_of o f) (option_of-IsUnused o f h)

IsUnused-IsSound : (f : Factory) → IsUnused f → IsSound f
IsUnused-IsSound f (no_informers, not_started, idle, up) = record {
  listed = rw no_informers tt;
  made_before = λ k i there. ground arith;
  apart = λ k j a b at_k at_j same. ground arith;
  counted = λ k i there. rw (idle, not_started) refl;
  unknown = λ k gone. rw not_started refl;
  none_later = λ n le. rw idle refl;
}

abbrev pub new_factory : ℕ → List Setting → Factory
new_factory resync os = new_shared_informer_factory_with_options resync (map option_of os)

new_factory-IsUnused : (resync : ℕ) (os : List Setting) → IsUnused (new_factory resync os)
unfolding new_shared_informer_factory_with_options
new_factory-IsUnused resync os = apply_options-IsUnused os _ (refl, refl, refl, refl)

-- An entry stays.
start_informers-informers :
    (xs : List (String × Informer)) (f : Factory) → (start_informers xs f).informers ≡ f.informers
unfolding start_informers
start_informers-informers [] f = refl
start_informers-informers ((k, i) ∷ xs) f =
    start_informers-informers xs (start_informer k i f) ∙ start_informer-informers k i f

found_or_made-keeps :
    (new : NewInformer) (f : Factory) (r : Option Informer) (k : String) (i : Informer)
    → lookup new.kind f.informers ≡ r
    → lookup k f.informers ≡ some i
    → lookup k (found_or_made r new f).1.informers ≡ some i
unfolding found_or_made make_informer
found_or_made-keeps new f none k i gone h =
    ground (arith, lookup-insert new.kind k (make_informer new f).0 f.informers, eq_iff new.kind k)
found_or_made-keeps new f (some _) k i there h = h

found_or_made-lookup :
    (new : NewInformer) (f : Factory) (r : Option Informer)
    → lookup new.kind f.informers ≡ r
    → lookup new.kind (found_or_made r new f).1.informers ≡ some (found_or_made r new f).0
unfolding found_or_made make_informer
found_or_made-lookup new f none gone =
    lookup-insert new.kind new.kind (make_informer new f).0 f.informers ∙ rw (eq_refl new.kind) refl
found_or_made-lookup new f (some i) there = there

step-lookup :
    (c : Call) (f : Factory) (k : String) (i : Informer)
    → lookup k f.informers ≡ some i
    → lookup k (step c f).informers ≡ some i
unfolding informer_for start shutdown
step-lookup (asks new) f k i h = found_or_made-keeps new f (lookup new.kind f.informers) k i refl h
step-lookup starts f k i h = ground (arith, start_informers-informers f.informers f)
step-lookup shuts f k i h = h

run-lookup :
    (calls : List Call) (f : Factory) (k : String) (i : Informer)
    → lookup k f.informers ≡ some i
    → lookup k (run calls f).informers ≡ some i
unfolding run
run-lookup [] f k i h = h
run-lookup (c ∷ calls) f k i h = run-lookup calls (step c f) k i (step-lookup c f k i h)

-- What `informer_for` gives is in the map.
informer_for-lookup :
    (new : NewInformer) (f : Factory)
    → lookup new.kind (informer_for new f).1.informers ≡ some (informer_for new f).0
unfolding informer_for
informer_for-lookup new f = found_or_made-lookup new f (lookup new.kind f.informers) refl

informer_for-found :
    (new : NewInformer) (f : Factory) (i : Informer)
    → lookup new.kind f.informers ≡ some i
    → informer_for new f ≡ (i, f)
unfolding informer_for found_or_made
informer_for-found new f i h = rw h refl

-- `Start` starts what is in the map.
start_informer-started :
    (kind : String) (i : Informer) (f : Factory) (k : String)
    → is_started (start_informer kind i f) k ≡ (if kind == k then true else is_started f k)
unfolding start_informer
start_informer-started kind i f k =
    ground (arith, eq_iff kind k, lookup-insert kind k true f.started_informers)

start_informers-keeps :
    (xs : List (String × Informer)) (f : Factory) (k : String)
    → is_started f k ≡ true
    → is_started (start_informers xs f) k ≡ true
unfolding start_informers
start_informers-keeps [] f k h = h
start_informers-keeps ((j, i) ∷ xs) f k h =
    start_informers-keeps xs (start_informer j i f) k
      (ground (arith, start_informer-started j i f k))

start_informers-starts :
    (xs : List (String × Informer)) (f : Factory) (k : String) (i : Informer)
    → lookup k xs ≡ some i
    → is_started (start_informers xs f) k ≡ true
unfolding start_informers
start_informers-starts [] f k i h = cc
start_informers-starts ((j, a) ∷ xs) f k i h = elim (Bool-cases (j == k)) [
  | inl e ↦
      start_informers-keeps xs (start_informer j a f) k (start_informer-started j a f k ∙ rw e refl)
  | inr e ↦ start_informers-starts xs (start_informer j a f) k i (rw e at h)
]

at_most_once : (b : Bool) (n : ℕ) → n ≡ (if b then 1 else 0) → n ≤ 1
at_most_once b n h = ground arith

start-up : (f : Factory) → f.shutting_down ≡ false → start f ≡ start_informers f.informers f
unfolding start
start-up f e = simp e

start-once :
    (f : Factory) (k : String) (i : Informer)
    → IsSound f
    → f.shutting_down ≡ false
    → lookup k f.informers ≡ some i
    → runs i.serial (start f).running ≡ 1
start-once f k i h up there =
    (start-IsSound f h).counted k i (ap (lookup k) (same up) ∙ there) ∙ rw (begun up) refl
  where
    same : f.shutting_down ≡ false → (start f).informers ≡ f.informers
    same e = ap (λ g. g.informers) (start-up f e) ∙ start_informers-informers f.informers f

    begun : f.shutting_down ≡ false → is_started (start f) k ≡ true
    begun e =
        ap (λ g. is_started g k) (start-up f e) ∙ start_informers-starts f.informers f k i there

module _ (resync : ℕ) (os : List Setting) (earlier later : List Call) (new : NewInformer) where
  abbrev before_asking : Factory
  before_asking = run earlier (new_factory resync os)

  -- The informer that the factory gives, and the factory after the later calls.
  abbrev pub given : Informer
  given = (informer_for new before_asking).0

  abbrev pub after_calls : Factory
  after_calls = run later (informer_for new before_asking).1

  after_calls-IsSound : IsSound after_calls
  after_calls-IsSound = run-IsSound later (informer_for new before_asking).1 (
      informer_for-IsSound new before_asking (
        run-IsSound earlier (new_factory resync os)
          (IsUnused-IsSound (new_factory resync os) (new_factory-IsUnused resync os))))

  still_there : lookup new.kind after_calls.informers ≡ some given
  still_there =
      run-lookup later (informer_for new before_asking).1 new.kind given
        (informer_for-lookup new before_asking)

  -- A factory gives one informer for a kind: once it has given one, then after any further calls it
  -- gives the same one, for any constructor of that kind, and it has been started at most once.
  pub informer_for_shared :
      (other : NewInformer)
      → other.kind ≡ new.kind
      → (informer_for other after_calls ≡ (given, after_calls))
        × (runs given.serial after_calls.running ≤ 1)
  informer_for_shared other same = (
    informer_for-found other after_calls given
        (ap (λ kind. lookup kind after_calls.informers) same ∙ still_there),
    at_most_once (is_started after_calls new.kind) _
        (after_calls-IsSound.counted new.kind given still_there),
  )

  -- Unless the factory is shutting down, `Start` leaves every informer that was given started exactly
  -- once, however often it was called before.
  pub given_starts_once :
      after_calls.shutting_down ≡ false → runs given.serial (start after_calls).running ≡ 1
  given_starts_once up = start-once after_calls new.kind given after_calls-IsSound up still_there

step-frozen :
    (c : Call) (f : Factory)
    → f.shutting_down ≡ true
    → ((step c f).running ≡ f.running) × ((step c f).shutting_down ≡ true)
unfolding informer_for found_or_made make_informer start shutdown
step-frozen (asks new) f h = ground arith
step-frozen starts f h = ground arith
step-frozen shuts f h = ground arith

run-frozen :
    (calls : List Call) (f : Factory) → f.shutting_down ≡ true → (run calls f).running ≡ f.running
unfolding run
run-frozen [] f h = refl
run-frozen (c ∷ calls) f h =
    run-frozen calls (step c f) ((step-frozen c f h).1) ∙ (step-frozen c f h).0

-- After `Shutdown` no call starts an informer.
pub run-shutdown : (calls : List Call) (f : Factory) → (run calls (shutdown f)).running ≡ f.running
unfolding shutdown
run-shutdown calls f = run-frozen calls (shutdown f) refl
