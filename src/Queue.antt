-- ===== src/Queue.antt =====
-- pkg/workerpool/queue.go: the queue without duplicates behind the worker and the request queue.
-- `dirty`, a Go map used as a set, is a list of its keys. The lock of each method makes it atomic,
-- so a method is a function on the queue.
pub mod Invariant
pub mod Reference
use cloudtty.Base.{
  ℕ, List, [], ◌∷◌, ◌++◌, Option, none, some, Bool, if◌then◌else◌, length, Eq, contains, erase,
}

-- An item of a queue: Go's `==` is the equality of the map's keys, and `reflect.DeepEqual`
-- compares the items of the slice.
pub record Item {ℓ} (A : Type ℓ) : Type ℓ where
  pub eq : Eq A
  pub deep_equal : A → A → Bool

pub record Queue {ℓ} (A : Type ℓ) : Type ℓ where
  pub queue : List A
  pub dirty : List A

unfoldable pub new_queue {ℓ} : {A : Type ℓ} → Queue A
new_queue = record { queue = []; dirty = [] }

-- The loop of `All`, which appends each item to a new slice.
unfoldable pub copy {ℓ} : {A : Type ℓ} → List A → List A → List A
copy items [] = items
copy items (item ∷ rest) = copy (items ++ item ∷ []) rest

module _ {ℓ} {A : Type ℓ} ⦃i : Item A⦄ where
  -- `set.has`
  unfoldable pub set_has : List A → A → Bool
  set_has s item = contains ⦃e = i.eq⦄ s item

  -- `set.insert`
  unfoldable pub set_insert : List A → A → List A
  set_insert s item = if contains ⦃e = i.eq⦄ s item then s else item ∷ s

  -- `set.delete`
  unfoldable pub set_delete : List A → A → List A
  set_delete s item = erase ⦃e = i.eq⦄ item s

  unfoldable pub add : Queue A → A → Queue A
  unfolding set_has set_insert
  add q item =
      if set_has q.dirty item
      then q
      else record { queue = q.queue ++ item ∷ []; dirty = set_insert q.dirty item }

  unfoldable pub len : Queue A → ℕ
  len q = length q.queue

  unfoldable pub get_from : List A → List A → Option A × Queue A
  get_from [] dirty = (none, record { queue = []; dirty = dirty })
  get_from (item ∷ rest) dirty = (some item, record { queue = rest; dirty = set_delete dirty item })

  -- `none` is Go's nil.
  unfoldable pub get : Queue A → Option A × Queue A
  unfolding get_from set_delete
  get q = get_from q.queue q.dirty

  -- The loop of `Remove`: the slice without the first object that is deeply equal to the item.
  unfoldable pub cut : A → List A → List A
  cut item [] = []
  cut item (obj ∷ rest) = if i.deep_equal obj item then rest else obj ∷ cut item rest

  unfoldable pub remove_from : List A → List A → A → Queue A
  unfolding set_has set_delete
  remove_from [] dirty item = record { queue = []; dirty = dirty }
  remove_from (obj ∷ rest) dirty item =
      if set_has dirty item
      then record { queue = cut item (obj ∷ rest); dirty = set_delete dirty item }
      else record { queue = obj ∷ rest; dirty = dirty }

  unfoldable pub remove : Queue A → A → Queue A
  unfolding remove_from cut
  remove q item = remove_from q.queue q.dirty item

  unfoldable pub has : Queue A → A → Bool
  unfolding set_has
  has q item = set_has q.dirty item

  unfoldable pub all : Queue A → List A
  unfolding copy
  all q = copy [] q.queue
