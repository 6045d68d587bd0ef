-- ===== src/Lib.antt =====
-- Safe memory reclamation for lock-free data structures: the four folders hazardpointer,
-- hazarderas, intervalbasedrec and urcu. Each has a manager, which decides when a node that has been
-- taken out of a structure may be deleted, and a stack, a queue and a linked list that use it.
--
-- Machine models the C++ memory that the four folders share (the record `Mem`: roots, node fields,
-- the tables of the managers, the allocated nodes, the vectors of retired nodes), the atomic actions
-- on it (`Cmd`, `perform`) and methods as programs over these actions (`Prog`, written in `do`
-- blocks with one action for each access of the source). An access to a node that is not allocated,
-- an index out of range, a double free, a signed overflow and a remainder by 0 are faults. The C++
-- allocator is a parameter; where a theorem needs it, its promise is named: an address that is not
-- null and not in use (Machine.Chains, `IsFresh`), for a list with marks an even one. Memory orders
-- are taken as sequentially consistent. A method is read in four ways:
--   Machine.Exec: run alone, with its result and the memory after it;
--   Machine.Guarded: with every answer possible for every action, so under any interference;
--   Machine.Bounded: with every answer possible, by the number of actions until it returns, and what
--     it then leaves in the words that only its own thread writes;
--   Machine.Interfered: among other threads that keep a given condition true.
--
-- The files and the sources that they model:
--   HazardPointer.Manager: hazardpointer/hazardpointer.hpp, the class `hazardPointers`;
--   HazardPointer.Stack, Queue: hazardpointer/StackHazardPointer.hpp, QueueHazardPointer.hpp;
--   HazardPointer.LinkedList: hazardpointer/LinkedListHazardPointer.hpp;
--   HazardEras.Manager: hazarderas/hazarderas.hpp, the class `hazardEras`;
--   HazardEras.Stack, Queue: hazarderas/StackHazardEras.hpp, QueueHazardEras.hpp;
--   HazardEras.LinkedList: hazarderas/LinkedListHazardEras.hpp;
--   IntervalBased.Manager: intervalbasedrec/IntervalBasedReclamation.hpp;
--   IntervalBased.Stack, Queue: intervalbasedrec/StackIBR.hpp, QueueIBR.hpp;
--   IntervalBased.LinkedList: intervalbasedrec/LinkedListIBR.hpp;
--   Urcu.Manager: urcu/URCU.hpp, the class `URCU`;
--   Urcu.Stack, Queue, LinkedList: urcu/StackURCU.hpp, QueueURCU.hpp, LinkedListURCU.hpp;
--   WaitFree: methods of the managers that never wait for another thread (`clear`,
--     `protectEraRelease`, `start_op`, `end_op`, `allocNode`, `readLock`, `readUnlock`);
--   Marks: the mark bit of the pointers in the four linked lists;
--   Benchmark: what the four copies of Benchmark.cpp share; Benchmark in each folder: its copy.
-- A method keeps its name in snake_case (`remove` is `remove_item`), a constructor is `construct`, a
-- destructor `destruct`, and a loop inside a method is a function of its own. The other files hold
-- the proofs, by what they are about, and the modules Examples the theorems at concrete inputs.
--
-- Loops take fuel and give `retry` when it is used up. What holds under interference holds for every
-- fuel. Where a method runs alone the theorem states how much is enough: one round more than there
-- are retired nodes for `retireNode`, one round for a loop around a compare-and-exchange and for a
-- wait without readers, one step more than there are nodes for a walk through a list, a round for each
-- node for a destructor.
--
-- Benchmark.Calls has an abstract stack and an abstract queue of items, Benchmark.Sets a list in order
-- and a set, and Benchmark.Calls what it takes for a class of any folder to refine such an object:
-- an invariant of the memory that every call keeps, with a budget of calls where a clock must not
-- overtake a reserved value, or a list not grow beyond the fuel.
--
-- A benchmark is run on one memory, its threads interleaved in the order that a schedule gives
-- (Machine.Threads); what `rand` gives, the schedule and the number of rounds are inputs.
--
-- Not modelled: weak memory orders, the failure of `new`, and in the benchmarks time, printing, the
-- percentage `delta` and the allocation of the elements.
pub mod Benchmark
pub mod HazardEras
pub mod HazardPointer
pub mod IntervalBased
pub mod Machine
pub mod Marks
pub mod Prelude
pub mod Urcu
pub mod WaitFree
