-- ===== src/HazardEras.antt =====
-- The folder hazarderas.
mod Examples
pub mod Manager
pub mod Protect
pub mod Queue
pub mod Retire
pub mod Unprotected
pub mod Stack
pub mod Eras
pub mod LinkedList
pub mod Benchmark
