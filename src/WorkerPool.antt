-- ===== src/WorkerPool.antt =====
-- pkg/workerpool/worker_pool.go: the pool of pods that cloudshells borrow and give back. The three
-- goroutines of `run` call `process_next_cluster`, `handle_request_queue` and
-- `scale_in_worker_queue`; the controller calls `borrow` and `back`.
pub mod Keys
pub mod Matching
pub mod Creation
pub mod Lending
pub mod Serving
pub mod Scaling
pub mod Invariant
pub mod Running
