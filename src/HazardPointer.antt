-- ===== src/HazardPointer.antt =====
-- The folder hazardpointer.
mod Examples
pub mod Held
pub mod LinkedList
pub mod ListContains
pub mod ListSearch
pub mod Manager
pub mod Queue
pub mod Sweep
pub mod Stack
pub mod StackLaws
pub mod StackPop
pub mod Protect
pub mod Reclaim
pub mod Safety
pub mod Benchmark
