-- ===== src/Cluster/Monad.antt =====
-- The operator's own state beside the cluster's, and its code as functions on both. An error leaves
-- the state as it is at that point: what was done before is kept.
pub mod Keeps
pub mod Success
use cloudtty.Base.{
  ◌≡◌, ◌↔◌, refl, ℕ, String, Bool, true, false, List, [], ◌∷◌, Option, none, some, Eq, string_eq,
  ◌==◌, ◌&&◌, nat_eq, if◌then◌else◌, arith, eq_iff,
}
use cloudtty.Base.Int.{ℤ}
use cloudtty.Base.Result.{Error, Result, ok, err}
use cloudtty.Queue
use cloudtty.Queue.{Queue, Item}
use cloudtty.Queue.Invariant.{IsExact}
use cloudtty.Objects.{Pod, CloudShell}
use cloudtty.Cluster.{Env, Backoff}

-- `Request` of pkg/workerpool/worker_pool.go. The two pointers are addresses.
pub record Request : Type 0 where
  pub cloudshell : String
  pub namespace : String
  pub image : String
  pub node_selector : String
  pub resources : Option ℕ
  pub cloudshell_queue : ℕ

abbrev pub same_resources : Option ℕ → Option ℕ → Bool
same_resources none none = true
same_resources (some a) (some b) = nat_eq a b
same_resources _ _ = false

abbrev pub same_request : Request → Request → Bool
same_request a b =
    a.cloudshell == b.cloudshell
    && a.namespace == b.namespace
    && a.image == b.image
    && a.node_selector == b.node_selector
    && same_resources a.resources b.resources
    && nat_eq a.cloudshell_queue b.cloudshell_queue

pub same_request_iff : (a b : Request) → (same_request a b ≡ true) ↔ (a ≡ b)
same_request_iff a b = ground (
  arith,
  eq_iff a.cloudshell b.cloudshell,
  eq_iff a.namespace b.namespace,
  eq_iff a.image b.image,
  eq_iff a.node_selector b.node_selector,
)

-- `reflect.DeepEqual` follows the two pointers. All requests of one controller hold its own two
-- pointers, so the addresses tell as much.
instance abbrev pub request_item : Item Request
request_item = record {
  eq = record { beq = same_request; beq_iff = same_request_iff };
  deep_equal = same_request;
}

instance abbrev pub string_item : Item String
string_item = record { eq = string_eq; deep_equal = ◌==◌ }

-- Both kinds of items are compared by `reflect.DeepEqual` as by `==`.
pub string_item-IsExact : IsExact string_item
string_item-IsExact = eq_iff

pub request_item-IsExact : IsExact request_item
request_item-IsExact = same_request_iff

-- What the code does to a rate-limited work queue.
pub data QueueCall : Type 0 where
  add add_rate_limited forget done : String → QueueCall
  add_after : String → ℤ → QueueCall

-- Calls that other goroutines see: on the work queue at an address, and a send on
-- `matchRequestSignal`.
pub data Event : Type 0 where
  queue_call : ℕ → QueueCall → Event
  match_request_signal : Event

-- `events` has the latest first.
pub record World (E : Env) : Type 0 where
  pub worker_queue : Queue String
  pub request_queue : Queue Request
  pub events : List Event
  pub state : E.State

abbrev pub M : Env → Type 0 → Type 0
M E A = World E → Result A × World E

module _ {E : Env} {A : Type 0} where
  unfoldable pub pure : A → M E A
  pure a w = (ok a, w)

  unfoldable pub fail : Error → M E A
  fail e w = (err e, w)

  -- The result as a value, for code that goes on after an error.
  unfoldable pub attempt : M E A → M E (Result A)
  attempt m w = let (r, w') = m w in (ok r, w')

  unfoldable pub from_result : Result A → M E A
  from_result r w = (r, w)

  unfoldable pub call : (E.State → Result A × E.State) → M E A
  call f w = let (r, s) = f w.state in (r, record w { state = s })

  -- A call that cannot fail.
  unfoldable pub query : (E.State → A × E.State) → M E A
  query f w = let (a, s) = f w.state in (ok a, record w { state = s })

module _ {E : Env} where
  unfoldable pub emit : Event → M E (Unit {0})
  emit e w = (ok tt, record w { events = e ∷ w.events })

  -- The calls on the two queues of the pool.
  unfoldable pub workers : M E (Queue String)
  workers w = (ok w.worker_queue, w)

  unfoldable pub requests : M E (Queue Request)
  requests w = (ok w.request_queue, w)

  unfoldable pub add_worker : String → M E (Unit {0})
  add_worker key w = (ok tt, record w { worker_queue = Queue.add w.worker_queue key })

  unfoldable pub remove_worker : String → M E (Unit {0})
  remove_worker key w = (ok tt, record w { worker_queue = Queue.remove w.worker_queue key })

  unfoldable pub add_request : Request → M E (Unit {0})
  add_request req w = (ok tt, record w { request_queue = Queue.add w.request_queue req })

  unfoldable pub remove_request : Request → M E (Unit {0})
  remove_request req w = (ok tt, record w { request_queue = Queue.remove w.request_queue req })

  -- A write through the pointer to a listed pod.
  unfoldable pub write_pod : Pod → M E (Unit {0})
  write_pod pod w = (ok tt, record w { state = E.write_pod pod w.state })

  -- A write through the pointer to a listed shell.
  unfoldable pub write_shell : CloudShell → M E (Unit {0})
  write_shell shell w = (ok tt, record w { state = E.write_shell shell w.state })

  -- `RetryOnConflict` over a body with no variable of its own.
  unfoldable pub retry_on_conflict : Backoff → M E (Unit {0}) → M E (Unit {0})
  retry_on_conflict b body = E.retry b (World E) body

module _ {E : Env} {A B : Type 0} where
  unfoldable pub continue : Result A → (A → M E B) → M E B
  continue (ok a) f w = f a w
  continue (err e) f w = (err e, w)

  -- `if err != nil { return err }`. To open this is to open the actions above.
  infixl 5 ◌>>=◌ ◌>>◌
  unfoldable pub ◌>>=◌ : M E A → (A → M E B) → M E B
  unfolding continue pure fail attempt from_result call query emit workers requests add_worker
      remove_worker add_request remove_request retry_on_conflict write_pod write_shell
  ◌>>=◌ m f w = let (r, w') = m w in continue r f w'

  abbrev pub ◌>>◌ : M E A → M E B → M E B
  m >> n = m >>= λ _. n

-- The code writes to a listed shell and then updates it; the server's answer goes into the same
-- object, and comes back.
unfoldable pub save_shell : {E : Env} → CloudShell → M E CloudShell
save_shell {E} shell = do
  write_shell shell
  updated ← call (E.shells.update shell)
  write_shell updated
  pure updated

-- A block whose first step succeeds goes on from there.
pub bind-ok :
    {E : Env} {A B : Type 0} (m : M E A) (f : A → M E B) (w : World E) (a : A)
    → (m w).0 ≡ ok a
    → ((m >>= f) w).0 ≡ (f a (m w).1).0
unfolding ◌>>=◌
bind-ok m f w a h = rw (h) refl

-- A block whose first step fails has failed.
pub bind-err :
    {E : Env} {A B : Type 0} (m : M E A) (f : A → M E B) (w : World E) (e : Error)
    → (m w).0 ≡ err e
    → ((m >>= f) w).0 ≡ err e
unfolding ◌>>=◌
bind-err m f w e h = rw (h) refl
