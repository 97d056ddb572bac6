-- ===== src/WorkerPool/Running/Exclusive.antt =====
-- A worker that is lent does not wait for another shell (`Borrow`, and the goroutines of
-- pkg/workerpool/worker_pool.go).
use cloudtty.Base.{
  String, false, List, ◌≡◌, ◌≢◌, subst, arith, contains, string_eq, contains-concat, contains-erase,
  Bool-cases, inl, inr, eq_iff, ap,
}
use cloudtty.Base.Result.{ok}
use cloudtty.Objects.{Pod}
use cloudtty.Queue
use cloudtty.Queue.{Queue}
use cloudtty.Queue.Invariant.{Inv, queue-remove}
use cloudtty.Cluster.{Env, RetryIsLawful}
use cloudtty.Cluster.Monad.{Request, World, ◌>>=◌, string_item, request_item, string_item-IsExact}
use cloudtty.WorkerPool.Keys.{worker_key}
use cloudtty.WorkerPool.Lending.{Pool, borrow}
use cloudtty.WorkerPool.Lending.Borrowing.{borrow-ok}
use cloudtty.WorkerPool.Invariant.Rules.{QueuesInv, QueuesInv-IsKept, IsKept}
use cloudtty.WorkerPool.Invariant.Lending.{borrow-Keeps}
use cloudtty.WorkerPool.Running.Keeping.{AllAllowed, Turns-keeps}
use cloudtty.WorkerPool.Running.{Running, Choice, Turns}

-- The queues are well formed, and the key does not wait.
record IsLent {E : Env} (key : String) (w : World E) : Type 0 where
  pub sound : QueuesInv w
  pub absent : contains w.worker_queue.queue key ≡ false

absent-add :
    (q : Queue String) (key other : String)
    → other ≢ key
    → contains q.queue key ≡ false
    → contains (Queue.add q other).queue key ≡ false
unfolding Queue.add
absent-add q key other h absent = elim (Bool-cases (contains q.dirty other)) [
  | inl old ↦ rw old absent
  | inr new ↦ rw (new, contains-concat q.queue other key) (ground (arith, absent, eq_iff other key))
]

absent-remove_other :
    (q : Queue String) (key other : String)
    → Inv q
    → contains q.queue key ≡ false
    → contains (Queue.remove q other).queue key ≡ false
absent-remove_other q key other v absent =
    rw (queue-remove string_item-IsExact q other v, contains-erase q.queue other key v.distinct)
      (ground (arith, absent))

abbrev pub IsOther : String → String → Type 0
IsOther key other = other ≢ key

module _ {E : Env} (key : String) where
  IsLent-IsKept : IsKept {E = E} (IsLent key) (IsOther key)
  unfolding ◌>>=◌
  IsLent-IsKept = record {
    local = record {
      with_state = λ w s h. record {
        sound = QueuesInv-IsKept.local.with_state w s h.sound;
        absent = h.absent;
      };
      with_event = λ w e h. record {
        sound = QueuesInv-IsKept.local.with_event w e h.sound;
        absent = h.absent;
      };
      with_none =
          λ w h. record { sound = QueuesInv-IsKept.local.with_none w h.sound; absent = h.absent };
    };
    adds = λ other may. record {
      at = λ w h. record {
        sound = (QueuesInv-IsKept.adds other tt).at w h.sound;
        absent = absent-add w.worker_queue key other may h.absent;
      };
    };
    removes = λ other. record {
      at = λ w h. record {
        sound = (QueuesInv-IsKept.removes other).at w h.sound;
        absent = absent-remove_other w.worker_queue key other h.sound.of_workers h.absent;
      };
    };
    adds_request = λ req. record {
      at = λ w h. record {
        sound = (QueuesInv-IsKept.adds_request req).at w h.sound;
        absent = h.absent;
      };
    };
    removes_request = λ req. record {
      at = λ w h. record {
        sound = (QueuesInv-IsKept.removes_request req).at w h.sound;
        absent = h.absent;
      };
    };
  }

-- No choice gives back a worker with the key, or gets the key of one.
abbrev pub LeavesLent : Env → String → List Choice → Type 0
LeavesLent E key cs = AllAllowed E (IsOther key) cs

module _ (E : Env) (L : RetryIsLawful E) (pool : Pool) where
  -- After a `Borrow` that lends a worker, and any sequence of turns in which no worker with its key is
  -- given back and `processNextCluster` gets no key for which the lister may give a pod with its key,
  -- the key of the worker does not wait in the worker queue, where every `Borrow` looks for its worker.
  -- `RetryOnConflict` is assumed to behave as documented, and the queues to be well formed before.
  pub lent_stays_away :
      {cs : List Choice} {t : Running E} (req : Request) (pod : Pod) (s : Running E) (w : World E)
      → QueuesInv s.world
      → borrow E req s.world ≡ (ok pod, w)
      → LeavesLent E (worker_key pod) cs
      → Turns E pool (record s { world = w }) cs t
      → contains t.world.worker_queue.queue (worker_key pod) ≡ false
  lent_stays_away req pod s w v h apart p =
      (Turns-keeps E L (IsLent-IsKept (worker_key pod)) pool p apart (record {
        sound = after;
        absent = (borrow-ok E L req pod s.world w v.of_workers h).7;
      })).absent
    where
      after : QueuesInv w
      after =
          subst QueuesInv (ap (λ out. out.1) h)
            ((borrow-Keeps E L QueuesInv-IsKept req).at s.world v)
