-- ===== src/IntervalBased.antt =====
-- The folder intervalbasedrec.
mod Examples
pub mod Manager
pub mod Queue
pub mod Stack
pub mod Safety
pub mod Retire
pub mod Conflict
pub mod LinkedList
pub mod Benchmark
