-- ===== src/Queue/Reference.antt =====
-- The contract of the queue: a list without duplicates. Any sequence of calls answers alike.
use cloudtty.Base.{
  ℕ, List, [], ◌∷◌, ◌++◌, Bool, ◌≡◌, refl, ap, arith, Option, none, some, length, contains, erase,
  if◌then◌else◌,
}
use cloudtty.Queue.{Item, Queue, new_queue, add, len, get, get_from, remove, has, all}
use cloudtty.Queue.Invariant.{
  IsExact, Inv, new_queue-Inv, add-Inv, get-Inv, remove-Inv, queue-remove, copy_lem,
}

-- The calls of the interface, and what they return.
pub data Call {ℓ} (A : Type ℓ) : Type ℓ where
  adds removes asks : A → Call A
  gets lens alls : Call A

pub data Reply {ℓ} (A : Type ℓ) : Type ℓ where
  done : Reply A
  item : Option A → Reply A
  answer : Bool → Reply A
  size : ℕ → Reply A
  items : List A → Reply A

module _ {ℓ} {A : Type ℓ} ⦃i : Item A⦄ where
  pub step : Queue A → Call A → Reply A × Queue A
  step q (adds a) = (done, add q a)
  step q (removes a) = (done, remove q a)
  step q (asks a) = (answer (has q a), q)
  step q gets = let (x, q') = get q in (item x, q')
  step q lens = (size (len q), q)
  step q alls = (items (all q), q)

  pub run : Queue A → List (Call A) → List (Reply A)
  run q [] = []
  run q (c ∷ cs) = let (r, q') = step q c in r ∷ run q' cs

  -- The reference: a call on a plain list of the waiting items, the oldest first.
  abbrev pub list_step : List A → Call A → Reply A × List A
  list_step xs (adds a) = (done, (if contains ⦃e = i.eq⦄ xs a then xs else xs ++ a ∷ []))
  list_step xs (removes a) = (done, erase ⦃e = i.eq⦄ a xs)
  list_step xs (asks a) = (answer (contains ⦃e = i.eq⦄ xs a), xs)
  list_step [] gets = (item none, [])
  list_step (x ∷ xs) gets = (item (some x), xs)
  list_step xs lens = (size (length xs), xs)
  list_step xs alls = (items xs, xs)

  pub list_run : List A → List (Call A) → List (Reply A)
  list_run xs [] = []
  list_run xs (c ∷ cs) = let (r, xs') = list_step xs c in r ∷ list_run xs' cs

  step-Inv : IsExact i → (q : Queue A) (c : Call A) → Inv q → Inv (step q c).1
  unfolding step
  step-Inv exact q (adds a) v = add-Inv q a v
  step-Inv exact q (removes a) v = remove-Inv exact q a v
  step-Inv exact q (asks a) v = v
  step-Inv exact q gets v = get-Inv q v
  step-Inv exact q lens v = v
  step-Inv exact q alls v = v

  gets-list :
      (queue dirty : List A)
      → (item (get_from queue dirty).0 ≡ (list_step queue gets).0)
        × ((get_from queue dirty).1.queue ≡ (list_step queue gets).1)
  unfolding get_from
  gets-list [] dirty = (refl, refl)
  gets-list (x ∷ xs) dirty = (refl, refl)

  step-list :
      IsExact i
      → (q : Queue A) (c : Call A) → Inv q
      → ((step q c).0 ≡ (list_step q.queue c).0) × ((step q c).1.queue ≡ (list_step q.queue c).1)
  unfolding step add len get has all
  step-list exact q (adds a) v = (refl, ground (arith, v.agrees a))
  step-list exact q (removes a) v = (refl, queue-remove exact q a v)
  step-list exact q (asks a) v = (ap answer (v.agrees a), refl)
  step-list exact q gets v = gets-list q.queue q.dirty
  step-list exact q lens v = (refl, refl)
  step-list exact q alls v = (ap items (copy_lem [] q.queue), refl)

  run-list_run_from :
      IsExact i → (q : Queue A) (cs : List (Call A)) → Inv q → run q cs ≡ list_run q.queue cs
  unfolding run list_run
  run-list_run_from exact q [] v = refl
  run-list_run_from exact q (c ∷ cs) v =
      let (reply, rest) = step-list exact q c v in
      rw (run-list_run_from exact (step q c).1 cs (step-Inv exact q c v), reply, rest)

  -- Whatever sequence of calls a new queue gets, it answers each call like a plain list without
  -- duplicates to which `Add` appends an absent item, from which `Get` takes the first item and
  -- `Remove` the item itself, if `reflect.DeepEqual` agrees with `==` on the items.
  pub run-list_run : IsExact i → (cs : List (Call A)) → run new_queue cs ≡ list_run [] cs
  unfolding new_queue
  run-list_run exact cs = run-list_run_from exact _ cs new_queue-Inv

  -- The queue that a sequence of calls leaves.
  pub after : Queue A → List (Call A) → Queue A
  after q [] = q
  after q (c ∷ cs) = after (step q c).1 cs

  after-Inv_from : IsExact i → (q : Queue A) (cs : List (Call A)) → Inv q → Inv (after q cs)
  unfolding after
  after-Inv_from exact q [] v = v
  after-Inv_from exact q (c ∷ cs) v = after-Inv_from exact (step q c).1 cs (step-Inv exact q c v)

  -- After any sequence of calls on a new queue no item waits twice, the keys of `dirty` are
  -- distinct, and `dirty` holds exactly the items that wait, if `reflect.DeepEqual` agrees with
  -- `==` on the items.
  pub after-new_queue-Inv : IsExact i → (cs : List (Call A)) → Inv (after new_queue cs)
  after-new_queue-Inv exact cs = after-Inv_from exact new_queue cs new_queue-Inv
