-- ===== src/WorkerPool/Invariant.antt =====
-- The two queues of the pool stay well formed under every operation, in any order of operations.
pub mod Rules
pub mod Lending
pub mod Loops
pub mod Histories
