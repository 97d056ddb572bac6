-- ===== src/Generated/DeepCopy/Copied.antt =====
-- What it is for an action on the heap to copy, and one rule for each way to build a copy. What is read
-- through an address is a reading of the heap: it fails where a cell is missing.
use cloudtty.Base.{ℕ, ◌≤◌, ◌<◌, ◌≡◌, refl, sym, ◌∙◌, Option, none, some, arith, if◌then◌else◌}
use cloudtty.Generated.DeepCopy.Heap.{Cell, Heap, M, pure, ◌>>=◌}

abbrev pub Reading : Type 0 → Type 0 → Type 0
Reading F V = Heap F → Option V

module _ {F : Type 0} where
  abbrev pub IsSound : Heap F → Type 0
  IsSound h = (p : ℕ) (c : Cell F) → h.cell p ≡ some c → p < h.next

  -- `g` has the cells of `h` whose address is at least `n`.
  abbrev pub KeepsFrom : ℕ → Heap F → Heap F → Type 0
  KeepsFrom n h g = (p : ℕ) (c : Cell F) → n ≤ p → h.cell p ≡ some c → g.cell p ≡ some c

  -- `g` has the cells of `h` whose address is below `n`.
  abbrev pub KeepsBelow : ℕ → Heap F → Heap F → Type 0
  KeepsBelow n h g = (p : ℕ) (c : Cell F) → p < n → h.cell p ≡ some c → g.cell p ≡ some c

  abbrev pub Extends : Heap F → Heap F → Type 0
  Extends h g = (p : ℕ) (c : Cell F) → h.cell p ≡ some c → g.cell p ≡ some c

  unfoldable pub give : {V : Type 0} → V → Reading F V
  give v h = some v

  infixl 5 ◌then◌
  unfoldable pub ◌then◌ : {U V : Type 0} → Reading F U → (U → Reading F V) → Reading F V
  ◌then◌ r f h = elim (r h) [ none ↦ none | some u ↦ f u h ]

  pub some-then :
      {U V : Type 0} (r : Reading F U) (f : U → Reading F V) (h : Heap F) (u : U)
      → r h ≡ some u
      → (r then f) h ≡ f u h
  unfolding ◌then◌
  some-then r f h u e = rw (e, ◌then◌) refl

  pub then-some :
      {U V : Type 0} (r : Reading F U) (f : U → Reading F V) (h : Heap F) (v : V)
      → (r then f) h ≡ some v
      → (u : U) × (r h ≡ some u) × (f u h ≡ some v)
  unfolding ◌then◌
  then-some r f h v e = found (r h) refl e
    where
      found :
          (o : Option _)
          → r h ≡ o
          → elim o [ none ↦ none | some u ↦ f u h ] ≡ some v
          → (u : _) × (r h ≡ some u) × (f u h ≡ some v)
      found none _ e = cc
      found (some u) there e = (u, there, e)

  -- What a reading reads stays readable while cells are only added.
  pub record IsReading {V : Type 0} (r : Reading F V) : Type 0 where
    pub stays : (h g : Heap F) (v : V) → Extends h g → r h ≡ some v → r g ≡ some v

  -- It is read at `h`, and wherever cells are added to it.
  abbrev pub Stays : {V : Type 0} → Heap F → Reading F V → V → Type 0
  Stays h r v = (g : Heap F) → Extends h g → r g ≡ some v

  pub at_once : {V : Type 0} {r : Reading F V} {v : V} (h : Heap F) → Stays h r v → r h ≡ some v
  at_once h e = e h λ p c there. there

  pub give-IsReading : {V : Type 0} (v : V) → IsReading (give v)
  unfolding give
  give-IsReading v = record { stays = λ h g w x e. e }

  pub then-IsReading :
      {U V : Type 0} (r : Reading F U) (f : U → Reading F V)
      → IsReading r
      → ((u : U) → IsReading (f u))
      → IsReading (r then f)
  then-IsReading r f is_r is_f = record {
    stays = λ h g v x e.
        let (u, read, rest) = then-some r f h v e in
        some-then r f g u (is_r.stays h g u x read) ∙ (is_f u).stays h g v x rest;
  }

-- The action returns at `h`, adds cells only, and its result has the property `Q` as long as the cells
-- that it added are kept.
pub record Made {F A : Type 0} (h : Heap F) (Q : A → Heap F → Type 0) (r : Option (A × Heap F))
    : Type 0 where
  pub result : A
  pub heap : Heap F
  pub returned : r ≡ some (result, heap)
  pub sound : IsSound heap
  pub grows : h.next ≤ heap.next
  pub extends : Extends h heap
  pub holds : (g : Heap F) → KeepsFrom h.next heap g → Q result g

-- `copy` is a deep copy, of what `view` reads: wherever a value is read, a copy is made in which the same
-- value is read.
pub record IsDeepCopy {F A V : Type 0} (view : A → Reading F V) (copy : A → M F A) : Type 0 where
  pub reads : (a : A) → IsReading (view a)
  pub made :
      (a : A) (h : Heap F) (v : V)
      → IsSound h
      → view a h ≡ some v
      → Made h (λ b g. view b g ≡ some v) (copy a h)

module _ {F A : Type 0} where
  pub pure-Made :
      (h : Heap F) (a : A) (Q : A → Heap F → Type 0)
      → IsSound h
      → ((g : Heap F) → Q a g)
      → Made h Q (pure a h)
  unfolding pure
  pure-Made h a Q sound q = record {
    result = a;
    heap = h;
    returned = refl;
    sound = sound;
    grows = omega arith;
    extends = λ p c e. e;
    holds = λ g k. q g;
  }

  pub weaken-Made :
      (h : Heap F) (m : M F A) (P Q : A → Heap F → Type 0)
      → Made h P (m h)
      → ((a : A) (g : Heap F) → P a g → Q a g)
      → Made h Q (m h)
  weaken-Made h m P Q first q = record {
    result = first.result;
    heap = first.heap;
    returned = first.returned;
    sound = first.sound;
    grows = first.grows;
    extends = first.extends;
    holds = λ g k. q first.result g (first.holds g k);
  }

module _ {F A B : Type 0} where
  pub bind-Made :
      (h : Heap F) (m : M F A) (f : A → M F B) (P : A → Heap F → Type 0) (Q : B → Heap F → Type 0)
      → Made h P (m h)
      → ((a : A) (g : Heap F) → IsSound g → Extends h g → Made g (λ b k. P a k → Q b k) (f a g))
      → Made h Q ((m >>= f) h)
  unfolding ◌>>=◌
  bind-Made h m f P Q first next =
      let then_made = next first.result first.heap first.sound first.extends in
      record {
        result = then_made.result;
        heap = then_made.heap;
        returned = rw (first.returned, ◌>>=◌) then_made.returned;
        sound = then_made.sound;
        grows = omega (arith, first.grows, then_made.grows);
        extends = λ p c e. then_made.extends p c (first.extends p c e);
        holds = λ g k.
            then_made.holds g (λ p c le e. k p c (omega (arith, first.grows)) e)
              (first.holds g (λ p c le e. k p c le (then_made.extends p c e)));
      }

module _ {F A B V W : Type 0} {view : A → Reading F V} {copy : A → M F A} where
  -- One step of a copy: what is left to do may use that what has been copied reads as the original.
  pub step-Made :
      {rest : V → Reading F W} {f : A → M F B} {h : Heap F} {w : W} {Q : B → Heap F → Type 0}
      → IsDeepCopy view copy
      → (a : A) → IsSound h
      → Stays h (view a then rest) w
      → ((v : V) (b : A) (g : Heap F)
          → IsSound g
          → Stays g (rest v) w
          → Made g (λ c k. view b k ≡ some v → Q c k) (f b g))
      → Made h Q ((copy a >>= f) h)
  step-Made {rest} {f} {h} {w} {Q} d a sound e next =
      let (v, read, _) = then-some (view a) rest h w (at_once h e) in
      bind-Made h (copy a) f (λ b g. view b g ≡ some v) Q (d.made a h v sound read)
        λ b g s x. next v b g s λ k y.
          let z : Extends h k = λ p c there. y p c (x p c there) in
          sym (some-then (view a) rest k v ((d.reads a).stays h k v z read)) ∙ e k z

module _ {F A V : Type 0} {view : A → Reading F V} {copy : A → M F A} where
  pub deep_copy :
      ((a : A) → IsReading (view a))
      → ((a : A) (h : Heap F) (v : V)
          → IsSound h
          → Stays h (view a) v
          → Made h (λ b g. view b g ≡ some v) (copy a h))
      → IsDeepCopy view copy
  deep_copy reads made = record {
    reads = reads;
    made = λ a h v sound e. made a h v sound λ g x. (reads a).stays h g v x e;
  }
