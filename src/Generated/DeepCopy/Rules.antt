-- ===== src/Generated/DeepCopy/Rules.antt =====
-- The loops and the pointers of the deep copies copy, when what they copy does.
use cloudtty.Base.{
  ℕ, ◌≡◌, refl, sym, ap, subst, ◌∙◌, String, List, [], ◌∷◌, Option, none, some, arith,
  if◌then◌else◌,
}
use cloudtty.Generated.DeepCopy.Heap.{Cell, Heap, M, pure, ◌>>=◌, Kind, peek, read_cell, load, new}
use cloudtty.Generated.DeepCopy.Copied.{
  Reading, IsSound, Extends, give, ◌then◌, some-then, then-some, IsReading, give-IsReading,
  then-IsReading, Made, IsDeepCopy, pure-Made, bind-Made, weaken-Made,
}
use cloudtty.Generated.DeepCopy.{copy_at, copy_pointer, copy_items, copy_entries}

module _ {F A : Type 0} where
  read_cell-some :
      (kind : Kind F A) (h g : Heap F) (p : ℕ) (a : A)
      → Extends h g
      → peek kind p h ≡ some a
      → peek kind p g ≡ some a
  read_cell-some kind h g p a x e = found (h.cell p) refl e
    where
      found :
          (o : Option (Cell F)) → h.cell p ≡ o → read_cell kind o ≡ some a → peek kind p g ≡ some a
      found none _ e = cc
      found (some c) there e = ap (read_cell kind) (x p c there) ∙ e

  peek-IsReading : (kind : Kind F A) (p : ℕ) → IsReading (peek kind p)
  peek-IsReading kind p = record { stays = λ h g a x e. read_cell-some kind h g p a x e }

  new-Made :
      (kind : Kind F A) (a : A) (h : Heap F)
      → IsSound h
      → Made h (λ q g. peek kind q g ≡ some a) (new kind a h)
  unfolding new
  new-Made kind a h sound = record {
    result = h.next;
    heap = _;
    returned = refl;
    sound = λ p c e. ground (arith, sound p c);
    grows = omega arith;
    extends = λ p c e. ground (arith, sound p c);
    holds = λ g k.
        ap (read_cell kind) (k h.next (kind.wrap a) (omega arith) (ground arith)) ∙ kind.same a;
  }

  pub plain-IsDeepCopy :
      {V : Type 0} (f : A → V) → IsDeepCopy {F = F} {A = A} (λ a. give (f a)) pure
  unfolding give
  plain-IsDeepCopy f = record {
    reads = λ a. give-IsReading (f a);
    made = λ a h v sound e. pure-Made h a (λ b g. give (f b) g ≡ some v) sound λ g. e;
  }

  load-bind :
      {B : Type 0} (kind : Kind F A) (p : ℕ) (f : A → M F B) (a : A) (h : Heap F)
      → peek kind p h ≡ some a
      → (load kind p >>= f) h ≡ f a h
  unfolding load ◌>>=◌
  load-bind kind p f a h e = rw (e, ◌>>=◌) refl

module _ {F A V : Type 0} where
  unfoldable pub read_at : Kind F A → (A → Reading F V) → ℕ → Reading F V
  read_at kind view p = peek kind p then view

  unfoldable pub read_pointer : Kind F A → (A → Reading F V) → Option ℕ → Reading F (Option V)
  unfolding read_at
  read_pointer kind view none = give none
  read_pointer kind view (some p) = read_at kind view p then λ v. give (some v)

  unfoldable pub read_items : (A → Reading F V) → List A → Reading F (List V)
  read_items view [] = give []
  read_items view (a ∷ items) = view a then λ v. read_items view items then λ vs. give (v ∷ vs)

  unfoldable pub read_entries :
      (A → Reading F V) → List (String × A) → Reading F (List (String × V))
  read_entries view [] = give []
  read_entries view ((k, a) ∷ entries) =
      view a then λ v. read_entries view entries then λ vs. give ((k, v) ∷ vs)

module _ {F A V : Type 0} {view : A → Reading F V} {copy : A → M F A}
    (d : IsDeepCopy view copy) where
  copy_at-Made :
      (kind : Kind F A) (p : ℕ) (h : Heap F) (w : V)
      → IsSound h
      → read_at kind view p h ≡ some w
      → Made h (λ q g. read_at kind view q g ≡ some w) (copy_at kind copy p h)
  unfolding copy_at read_at
  copy_at-Made kind p h w sound e =
      let (a, there, read) = then-some _ _ h w e in
      subst (Made h _) (sym (load-bind kind p _ a h there)) (
        bind-Made h (copy a) _ (λ b g. view b g ≡ some w) _ (d.made a h w sound read)
          λ b g s x.
            weaken-Made g (new kind b) (λ q k. peek kind q k ≡ some b) _ (new-Made kind b g s)
              λ q k at_cell at_first. some-then _ _ k b at_cell ∙ at_first)

  pub at-IsDeepCopy : (kind : Kind F A) → IsDeepCopy (read_at kind view) (copy_at kind copy)
  unfolding read_at
  at-IsDeepCopy kind = record {
    reads = λ p. then-IsReading _ _ (peek-IsReading kind p) d.reads;
    made = copy_at-Made kind;
  }

  read_pointer-IsReading : (kind : Kind F A) (p : Option ℕ) → IsReading (read_pointer kind view p)
  unfolding read_pointer
  read_pointer-IsReading kind none = give-IsReading none
  read_pointer-IsReading kind (some p) =
      then-IsReading _ _ ((at-IsDeepCopy kind).reads p) λ v. give-IsReading (some v)

  read_items-IsReading : (items : List A) → IsReading (read_items view items)
  unfolding read_items
  read_items-IsReading [] = give-IsReading []
  read_items-IsReading (a ∷ items) =
      then-IsReading _ _ (d.reads a)
        λ v. then-IsReading _ _ (read_items-IsReading items) λ vs. give-IsReading (v ∷ vs)

  read_entries-IsReading : (entries : List (String × A)) → IsReading (read_entries view entries)
  unfolding read_entries
  read_entries-IsReading [] = give-IsReading []
  read_entries-IsReading ((k, a) ∷ entries) =
      then-IsReading _ _ (d.reads a)
        λ v. then-IsReading _ _ (read_entries-IsReading entries) λ vs. give-IsReading ((k, v) ∷ vs)

  copy_items-Made :
      (items : List A) (h : Heap F) (vs : List V)
      → IsSound h
      → read_items view items h ≡ some vs
      → Made h (λ b g. read_items view b g ≡ some vs) (copy_items copy items h)
  unfolding copy_items read_items give
  copy_items-Made [] h vs sound e =
      pure-Made h [] (λ b g. read_items view b g ≡ some vs) sound λ g. e
  copy_items-Made (a ∷ items) h vs sound e =
      let (v, there, rest) = then-some _ _ h vs e in
      let (us, those, last) = then-some _ _ h vs rest in
      bind-Made h (copy a) _ (λ b g. view b g ≡ some v) _ (d.made a h v sound there)
        λ b g s x.
          bind-Made g (copy_items copy items) _ (λ bs k. read_items view bs k ≡ some us) _
            (copy_items-Made items g us s ((read_items-IsReading items).stays h g us x those))
            λ bs k s2 y.
              pure-Made k (b ∷ bs) _ s2
                λ j at_rest at_first. some-then _ _ j v at_first ∙ some-then _ _ j us at_rest ∙ last

  copy_entries-Made :
      (entries : List (String × A)) (h : Heap F) (vs : List (String × V))
      → IsSound h
      → read_entries view entries h ≡ some vs
      → Made h (λ b g. read_entries view b g ≡ some vs) (copy_entries copy entries h)
  unfolding copy_entries read_entries give
  copy_entries-Made [] h vs sound e =
      pure-Made h [] (λ b g. read_entries view b g ≡ some vs) sound λ g. e
  copy_entries-Made ((key, a) ∷ entries) h vs sound e =
      let (v, there, rest) = then-some _ _ h vs e in
      let (us, those, last) = then-some _ _ h vs rest in
      bind-Made h (copy a) _ (λ b g. view b g ≡ some v) _ (d.made a h v sound there)
        λ b g s x.
          bind-Made g (copy_entries copy entries) _ (λ bs k. read_entries view bs k ≡ some us) _
            (copy_entries-Made entries g us s
              ((read_entries-IsReading entries).stays h g us x those))
            λ bs k s2 y.
              pure-Made k ((key, b) ∷ bs) _ s2
                λ j at_rest at_first. some-then _ _ j v at_first ∙ some-then _ _ j us at_rest ∙ last

  copy_pointer-Made :
      (kind : Kind F A) (p : Option ℕ) (h : Heap F) (w : Option V)
      → IsSound h
      → read_pointer kind view p h ≡ some w
      → Made h (λ b g. read_pointer kind view b g ≡ some w) (copy_pointer kind copy p h)
  unfolding copy_pointer read_pointer give
  copy_pointer-Made kind none h w sound e =
      pure-Made h none (λ b g. read_pointer kind view b g ≡ some w) sound λ g. e
  copy_pointer-Made kind (some p) h w sound e =
      let (v, read, last) = then-some _ _ h w e in
      bind-Made h (copy_at kind copy p) _ (λ q g. read_at kind view q g ≡ some v) _
        (copy_at-Made kind p h v sound read)
        λ q g s x. pure-Made g (some q) _ s λ j at_first. some-then _ _ j v at_first ∙ last

  pub pointer-IsDeepCopy :
      (kind : Kind F A) → IsDeepCopy (read_pointer kind view) (copy_pointer kind copy)
  pointer-IsDeepCopy kind = record {
    reads = read_pointer-IsReading kind;
    made = copy_pointer-Made kind;
  }

  pub items-IsDeepCopy : IsDeepCopy (read_items view) (copy_items copy)
  items-IsDeepCopy = record { reads = read_items-IsReading; made = copy_items-Made }

  pub entries-IsDeepCopy : IsDeepCopy (read_entries view) (copy_entries copy)
  entries-IsDeepCopy = record { reads = read_entries-IsReading; made = copy_entries-Made }
