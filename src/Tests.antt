-- ===== src/Tests.antt =====
-- Examples on a small cluster.
mod DeepCopies
mod Demo
mod Pool
mod Goroutines
mod Shells
mod Parts
mod Commands
mod Operator
mod Losses
mod Removals
mod Clients
mod Listers
mod Informers
