-- ===== src/Queue/Invariant.antt =====
-- What every method keeps: no item waits twice, and `dirty` is the set of the items that wait.
use cloudtty.Base.{
  ◌+◌, ◌≤◌, length-append, List, [], ◌∷◌, ◌++◌, true, false, ◌≡◌, refl, ◌↔◌, ◌∙◌, sym, arith, inl,
  inr, Bool-cases, contains, Distinct, erase, contains-concat, Distinct-concat, contains-erase,
  contains-erase_self, Distinct-erase, erase_of_absent,
}
use mathlib.Core.List.{append-nil, append_assoc}
use cloudtty.Queue.{
  Item, Queue, new_queue, set_delete, add, get, get_from, cut, remove, len, remove_from, copy, all,
}

-- `reflect.DeepEqual` tells apart whatever `==` tells apart.
abbrev pub IsExact {ℓ} : {A : Type ℓ} → Item A → Type ℓ
IsExact {A} i = (a b : A) → (i.deep_equal a b ≡ true) ↔ (a ≡ b)

pub copy_lem {ℓ} : {A : Type ℓ} (items xs : List A) → copy items xs ≡ items ++ xs
unfolding copy
copy_lem items [] = sym (append-nil items)
copy_lem items (x ∷ xs) = copy_lem (items ++ x ∷ []) xs ∙ append_assoc items (x ∷ []) xs

module _ {ℓ} {A : Type ℓ} ⦃i : Item A⦄ where
  pub all_lem : (q : Queue A) → all q ≡ q.queue
  unfolding all
  all_lem q = copy_lem [] q.queue

  pub len-add-le : (q : Queue A) (item : A) → len (add q item) ≤ len q + 1
  unfolding len add
  len-add-le q item = ground (arith, length-append {ℓ} q.queue (item ∷ []))

  pub record Inv (q : Queue A) : Type ℓ where
    pub distinct : Distinct ⦃e = i.eq⦄ q.queue
    pub distinct_dirty : Distinct ⦃e = i.eq⦄ q.dirty
    pub agrees : (a : A) → contains ⦃e = i.eq⦄ q.dirty a ≡ contains ⦃e = i.eq⦄ q.queue a

  pub new_queue-Inv : Inv new_queue
  unfolding new_queue
  new_queue-Inv = record { distinct = tt; distinct_dirty = tt; agrees = λ a. refl }

  pub add-Inv : (q : Queue A) (item : A) → Inv q → Inv (add q item)
  unfolding add
  add-Inv q item v = elim (Bool-cases (contains ⦃e = i.eq⦄ q.dirty item)) [
    | inl old ↦ rw old v
    | inr new ↦ rw new (record {
      distinct = Distinct-concat ⦃e = i.eq⦄ q.queue item v.distinct (sym (v.agrees item) ∙ new);
      distinct_dirty = (new, v.distinct_dirty);
      agrees = λ a. rw (contains-concat ⦃e = i.eq⦄ q.queue item a) (ground (arith, v.agrees a));
    })
  ]

  get_from-Inv :
      (queue dirty : List A)
      → Inv (record { queue = queue; dirty = dirty })
      → Inv (get_from queue dirty).1
  unfolding get_from set_delete
  get_from-Inv [] dirty v = v
  get_from-Inv (x ∷ rest) dirty v = record {
    distinct = v.distinct.1;
    distinct_dirty = Distinct-erase ⦃e = i.eq⦄ dirty x v.distinct_dirty;
    agrees = λ a. ground (
      arith,
      v.agrees a,
      v.distinct.0,
      i.eq.beq_iff x a,
      contains-erase ⦃e = i.eq⦄ dirty x a v.distinct_dirty,
    );
  }

  pub get-Inv : (q : Queue A) → Inv q → Inv (get q).1
  unfolding get
  get-Inv q v = get_from-Inv q.queue q.dirty v

  pub cut-erase : IsExact i → (item : A) (xs : List A) → cut item xs ≡ erase ⦃e = i.eq⦄ item xs
  unfolding cut
  cut-erase exact item [] = refl
  cut-erase exact item (x ∷ xs) =
      ground (arith, cut-erase exact item xs, exact x item, i.eq.beq_iff x item)

  remove_from-Inv :
      IsExact i
      → (queue dirty : List A) (item : A) → Inv (record { queue = queue; dirty = dirty })
      → Inv (remove_from queue dirty item)
  unfolding remove_from
  remove_from-Inv exact [] dirty item v = v
  remove_from-Inv exact (x ∷ rest) dirty item v =
      elim (Bool-cases (contains ⦃e = i.eq⦄ dirty item)) [
        | inl old ↦
            rw (old, cut-erase exact item (x ∷ rest))
              (record {
                distinct = Distinct-erase ⦃e = i.eq⦄ (x ∷ rest) item v.distinct;
                distinct_dirty = Distinct-erase ⦃e = i.eq⦄ dirty item v.distinct_dirty;
                agrees = λ a.
                    rw (contains-erase ⦃e = i.eq⦄ dirty item a v.distinct_dirty, v.agrees a)
                      (sym (contains-erase ⦃e = i.eq⦄ (x ∷ rest) item a v.distinct));
              })
        | inr new ↦ rw new v
      ]

  pub remove-Inv : IsExact i → (q : Queue A) (item : A) → Inv q → Inv (remove q item)
  unfolding remove
  remove-Inv exact q item v = remove_from-Inv exact q.queue q.dirty item v

  remove_from-queue :
      IsExact i
      → (queue dirty : List A) (item : A) → Inv (record { queue = queue; dirty = dirty })
      → (remove_from queue dirty item).queue ≡ erase ⦃e = i.eq⦄ item queue
  unfolding remove_from
  remove_from-queue exact [] dirty item v = refl
  remove_from-queue exact (x ∷ rest) dirty item v =
      elim (Bool-cases (contains ⦃e = i.eq⦄ dirty item)) [
        | inl old ↦ rw old (cut-erase exact item (x ∷ rest))
        | inr new ↦
            rw new (sym (erase_of_absent ⦃e = i.eq⦄ (x ∷ rest) item (sym (v.agrees item) ∙ new)))
      ]

  -- `Remove` takes the item off the list, and nothing else.
  pub queue-remove :
      IsExact i
      → (q : Queue A) (item : A) → Inv q
      → (remove q item).queue ≡ erase ⦃e = i.eq⦄ item q.queue
  unfolding remove
  queue-remove exact q item v = remove_from-queue exact q.queue q.dirty item v

  pub absent-remove :
      IsExact i
      → (q : Queue A) (item : A) → Inv q
      → contains ⦃e = i.eq⦄ (remove q item).queue item ≡ false
  absent-remove exact q item v =
      rw (queue-remove exact q item v) (contains-erase_self ⦃e = i.eq⦄ q.queue item v.distinct)
