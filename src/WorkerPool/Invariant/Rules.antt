-- ===== src/WorkerPool/Invariant/Rules.antt =====
-- The invariant of the two queues, and the rules for the actions of which the operations consist.
use cloudtty.Base.{String}
use cloudtty.Queue.Invariant.{Inv, add-Inv, remove-Inv}
use cloudtty.Cluster.{Env}
use cloudtty.Cluster.Monad.{
  Request, World, ◌>>=◌, add_worker, remove_worker, add_request, remove_request, string_item,
  request_item, string_item-IsExact, request_item-IsExact,
}
use cloudtty.Cluster.Monad.Keeps.{Keeps, IsLocal, keeps_rules}

-- No worker key and no request waits twice, and the sets agree with the lists.
pub record QueuesInv {E : Env} (w : World E) : Type 0 where
  pub of_workers : Inv w.worker_queue
  pub of_requests : Inv w.request_queue

-- What the actions on the world keep. `May` says which keys may join the worker queue.
pub record IsKept {E : Env} (P : World E → Type 0) (May : String → Type 0) : Type 0 where
  pub local : IsLocal P
  pub adds : (key : String) → May key → Keeps P (add_worker key)
  pub removes : (key : String) → Keeps P (remove_worker key)
  pub adds_request : (req : Request) → Keeps P (add_request req)
  pub removes_request : (req : Request) → Keeps P (remove_request req)

abbrev pub AnyKey : String → Type 0
AnyKey key = Unit {0}

module _ {E : Env} where
  pub QueuesInv-IsLocal : IsLocal {E = E} QueuesInv
  QueuesInv-IsLocal = record {
    with_state = λ w s h. record { of_workers = h.of_workers; of_requests = h.of_requests };
    with_event = λ w e h. record { of_workers = h.of_workers; of_requests = h.of_requests };
    with_none = λ w h. record { of_workers = h.of_workers; of_requests = h.of_requests };
  }

  pub Keeps-add_worker : (key : String) → Keeps QueuesInv (add_worker {E = E} key)
  unfolding ◌>>=◌
  Keeps-add_worker key = record {
    at = λ w h. record {
      of_workers = add-Inv w.worker_queue key h.of_workers;
      of_requests = h.of_requests;
    };
  }

  pub Keeps-remove_worker : (key : String) → Keeps QueuesInv (remove_worker {E = E} key)
  unfolding ◌>>=◌
  Keeps-remove_worker key = record {
    at = λ w h. record {
      of_workers = remove-Inv string_item-IsExact w.worker_queue key h.of_workers;
      of_requests = h.of_requests;
    };
  }

  pub Keeps-add_request : (req : Request) → Keeps QueuesInv (add_request {E = E} req)
  unfolding ◌>>=◌
  Keeps-add_request req = record {
    at = λ w h. record {
      of_workers = h.of_workers;
      of_requests = add-Inv w.request_queue req h.of_requests;
    };
  }

  pub Keeps-remove_request : (req : Request) → Keeps QueuesInv (remove_request {E = E} req)
  unfolding ◌>>=◌
  Keeps-remove_request req = record {
    at = λ w h. record {
      of_workers = h.of_workers;
      of_requests = remove-Inv request_item-IsExact w.request_queue req h.of_requests;
    };
  }

  pub QueuesInv-IsKept : IsKept {E = E} QueuesInv AnyKey
  QueuesInv-IsKept = record {
    local = QueuesInv-IsLocal;
    adds = λ key may. Keeps-add_worker key;
    removes = Keeps-remove_worker;
    adds_request = Keeps-add_request;
    removes_request = Keeps-remove_request;
  }

pub ruleset queue_rules = (
  keeps_rules, QueuesInv-IsLocal, Keeps-add_worker, Keeps-remove_worker, Keeps-add_request,
  Keeps-remove_request,
)
