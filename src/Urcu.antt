-- ===== src/Urcu.antt =====
-- The folder urcu.
pub mod Deletion
pub mod Waits
pub mod Grace
mod Examples
mod CallExamples
pub mod EmptyDequeue
pub mod Manager
pub mod Queue
pub mod Stack
pub mod LinkedList
pub mod Benchmark
pub mod TooMany
pub mod Destructor
pub mod Alone
pub mod StackAlone
pub mod StackRefine
pub mod StackCalls
pub mod QueueAlone
pub mod QueueRefine
pub mod QueueCalls
pub mod ListSet
pub mod ListChange
pub mod ListUnlink
pub mod ListAlone
pub mod ListRemove
pub mod ListCalls
pub mod SetCalls
pub mod ListWalk
pub mod ListLinks
pub mod ListFind
pub mod Constructed
