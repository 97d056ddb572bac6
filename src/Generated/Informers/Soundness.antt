-- ===== src/Generated/Informers/Soundness.antt =====
-- The state of a factory: each informer has its own serial number, and runs as the factory notes.
use cloudtty.Base.{
  ℕ, ◌+◌, ◌≤◌, ◌<◌, ◌≡◌, refl, ◌∙◌, String, true, false, List, [], ◌∷◌, ◌++◌, Option, none, some,
  if◌then◌else◌, ◌==◌, eq_iff, eq_refl, nat_eq, arith, inl, inr, Bool-cases,
}
use cloudtty.Base.Dict.{lookup, insert, lookup-insert}
use cloudtty.Generated.Informers.{
  Informer, Factory, is_started, start_informer, start_informers, start, shutdown, NewInformer,
  make_informer, found_or_made, informer_for,
}

-- How often an informer with this serial number has been started.
abbrev pub runs : ℕ → List Informer → ℕ
runs n [] = 0
runs n (i ∷ is) = (if nat_eq i.serial n then 1 else 0) + runs n is

runs-append :
    (n : ℕ) (is : List Informer) (i : Informer)
    → runs n (is ++ i ∷ []) ≡ runs n is + (if nat_eq i.serial n then 1 else 0)
runs-append n [] i = omega arith
runs-append n (j ∷ is) i = omega (arith, runs-append n is i)

-- The entries are what the map gives for their keys.
abbrev pub Listed : List (String × Informer) → List (String × Informer) → Type 0
Listed m [] = Unit {0}
Listed m ((k, i) ∷ xs) = (lookup k m ≡ some i) × Listed m xs

pub record IsSound (f : Factory) : Type 0 where
  pub listed : Listed f.informers f.informers
  pub made_before : (k : String) (i : Informer) → lookup k f.informers ≡ some i → i.serial < f.made
  pub apart :
      (k j : String) (a b : Informer)
      → lookup k f.informers ≡ some a
      → lookup j f.informers ≡ some b
      → a.serial ≡ b.serial
      → k ≡ j
  pub counted :
      (k : String) (i : Informer)
      → lookup k f.informers ≡ some i
      → runs i.serial f.running ≡ (if is_started f k then 1 else 0)
  pub unknown : (k : String) → lookup k f.informers ≡ none → is_started f k ≡ false
  pub none_later : (n : ℕ) → f.made ≤ n → runs n f.running ≡ 0

Listed-insert :
    (k : String) (v : Informer) (m xs : List (String × Informer))
    → lookup k m ≡ none
    → Listed m xs
    → Listed (insert k v m) xs
Listed-insert k v m [] gone h = tt
Listed-insert k v m ((j, i) ∷ xs) gone (h, hs) =
    (ground (arith, lookup-insert k j v m, eq_iff k j), Listed-insert k v m xs gone hs)

Listed-at_end :
    (k : String) (v : Informer) (m xs : List (String × Informer))
    → lookup k m ≡ some v
    → lookup k xs ≡ none
    → Listed m xs
    → Listed m (insert k v xs)
Listed-at_end k v m [] there gone h = (there, tt)
Listed-at_end k v m ((j, i) ∷ xs) there gone (h, hs) = elim (Bool-cases (j == k)) [
  | inl e ↦ let here : some i ≡ none = rw e at gone in cc
  | inr e ↦ rw e (h, Listed-at_end k v m xs there (rw e at gone) hs)
]

make_informer-IsSound :
    (new : NewInformer) (f : Factory)
    → lookup new.kind f.informers ≡ none
    → IsSound f
    → IsSound (make_informer new f).1
unfolding make_informer
make_informer-IsSound new f gone h = record {
  listed =
      Listed-at_end new.kind made f'.informers f.informers now_there gone
        (Listed-insert new.kind made f.informers f.informers gone h.listed);
  made_before = λ k i at. ground (arith, found k, eq_iff new.kind k, h.made_before k i);
  apart = λ k j a b at_k at_j same. ground (
    arith,
    found k,
    found j,
    eq_iff new.kind k,
    eq_iff new.kind j,
    eq_iff k j,
    h.apart k j a b,
    h.made_before k a,
    h.made_before j b,
  );
  counted = λ k i at.
      ground (arith, found k, eq_iff new.kind k, h.counted k i, h.unknown k, h.none_later f.made);
  unknown = λ k at. ground (arith, found k, eq_iff new.kind k, h.unknown k);
  none_later = λ n le. ground (arith, h.none_later n);
}
  where
    f' : Factory
    f' = (make_informer new f).1

    made : Informer
    made = (make_informer new f).0

    found :
        (k : String)
        → lookup k f'.informers ≡ (if new.kind == k then some made else lookup k f.informers)
    found k = lookup-insert new.kind k made f.informers

    now_there : lookup new.kind f'.informers ≡ some made
    now_there = found new.kind ∙ rw (eq_refl new.kind) refl

informer_for-cases :
    (new : NewInformer) (f : Factory) (r : Option Informer)
    → lookup new.kind f.informers ≡ r
    → IsSound f
    → IsSound (found_or_made r new f).1
unfolding found_or_made
informer_for-cases new f none gone h = make_informer-IsSound new f gone h
informer_for-cases new f (some i) there h = h

pub informer_for-IsSound :
    (new : NewInformer) (f : Factory) → IsSound f → IsSound (informer_for new f).1
unfolding informer_for
informer_for-IsSound new f h = informer_for-cases new f (lookup new.kind f.informers) refl h

start_informer-IsSound :
    (kind : String) (informer : Informer) (f : Factory)
    → lookup kind f.informers ≡ some informer
    → IsSound f
    → IsSound (start_informer kind informer f)
unfolding start_informer
start_informer-IsSound kind informer f there h = elim (Bool-cases (is_started f kind)) [
  | inl e ↦ rw e h
  | inr e ↦ rw e record {
    listed = h.listed;
    made_before = h.made_before;
    apart = h.apart;
    counted = λ k i at. ground (
      arith,
      eq_iff kind k,
      lookup-insert kind k true f.started_informers,
      runs-append i.serial f.running informer,
      h.counted k i,
      h.apart kind k informer i,
    );
    unknown = λ k at.
        ground (arith, eq_iff kind k, lookup-insert kind k true f.started_informers, h.unknown k);
    none_later = λ n le. ground (
      arith,
      runs-append n f.running informer,
      h.none_later n,
      h.made_before kind informer there,
    );
  }
]

pub start_informer-informers :
    (kind : String) (informer : Informer) (f : Factory)
    → (start_informer kind informer f).informers ≡ f.informers
unfolding start_informer
start_informer-informers kind informer f = ground arith

start_informers-IsSound :
    (xs : List (String × Informer)) (f : Factory)
    → Listed f.informers xs
    → IsSound f
    → IsSound (start_informers xs f)
unfolding start_informers
start_informers-IsSound [] f listed h = h
start_informers-IsSound ((k, i) ∷ xs) f (at, rest) h =
    start_informers-IsSound xs (start_informer k i f) (rw (start_informer-informers k i f) rest)
      (start_informer-IsSound k i f at h)

pub start-IsSound : (f : Factory) → IsSound f → IsSound (start f)
unfolding start
start-IsSound f h = ground (arith, start_informers-IsSound f.informers f h.listed h)

-- The calls that a client makes.
pub data Call : Type 0 where
  asks : NewInformer → Call
  starts shuts : Call

abbrev pub step : Call → Factory → Factory
step (asks new) f = (informer_for new f).1
step starts f = start f
step shuts f = shutdown f

unfoldable pub run : List Call → Factory → Factory
run [] f = f
run (c ∷ calls) f = run calls (step c f)

step-IsSound : (c : Call) (f : Factory) → IsSound f → IsSound (step c f)
unfolding shutdown
step-IsSound (asks new) f h = informer_for-IsSound new f h
step-IsSound starts f h = start-IsSound f h
step-IsSound shuts f h = record {
  listed = h.listed;
  made_before = h.made_before;
  apart = h.apart;
  counted = h.counted;
  unknown = h.unknown;
  none_later = h.none_later;
}

pub run-IsSound : (calls : List Call) (f : Factory) → IsSound f → IsSound (run calls f)
unfolding run
run-IsSound [] f h = h
run-IsSound (c ∷ calls) f h = run-IsSound calls (step c f) (step-IsSound c f h)
