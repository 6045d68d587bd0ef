-- ===== src/Urcu/TooMany.antt =====
-- The constructors of QueueURCU.hpp and StackURCU.hpp, run alone: the array
-- `retired_nodes_count` has MAX_THREAD_COUNT elements, whatever `max_threads` is.
use smr_implementations.Prelude.{
  List, arith, dec_lt, le→ltb, lt→ltb, refl, suc, zero, ℕ, ◌+◌, ◌<◌, ◌∙◌, ◌≡◌, ◌≤◌,
}
use smr_implementations.Machine.{Mem, for_loop, max_threads, perform, valid}
use smr_implementations.Machine.Exec.{exec, fault, ok}
use smr_implementations.Urcu.Constructed.{
  counters, counters_run, made, queue_counters, stack_counters,
}
use smr_implementations.Urcu.Queue
use smr_implementations.Urcu.Stack

module _ (allocator : List ℕ → ℕ) where
  -- A loop that writes the counters from `i` on runs into the end of the array.
  counters_fault :
      (rounds i : ℕ) (m : Mem)
      → max_threads < rounds + i
      → i ≤ max_threads
      → exec allocator (counters rounds i) m ≡ fault
  unfolding for_loop exec perform valid
  counters_fault zero i m h below = absurd (omega arith)
  counters_fault (suc rounds) i m h below = elim (dec_lt i max_threads) [
    | yes lt ↦
        rw (lt→ltb i max_threads lt) (counters_fault rounds (i + 1) _ (omega arith) (omega arith))
    | no past ↦ rw (le→ltb i max_threads (omega arith)) refl
  ]

  -- For more threads than MAX_THREAD_COUNT both constructors, run alone, write past the end of their
  -- counters.
  pub construct-fault :
      (n : ℕ) (m : Mem)
      → max_threads < n
      → (exec allocator (Queue.construct n) m ≡ fault)
        × (exec allocator (Stack.construct n) m ≡ fault)
  construct-fault n m h =
      let (r1, e1, _) = queue_counters allocator n m in
      let (r2, e2, _) = stack_counters allocator n m in
      (
        e1 ∙ counters_fault n 0 _ (omega arith) (omega arith),
        e2 ∙ counters_fault n 0 _ (omega arith) (omega arith),
      )

  -- For at most MAX_THREAD_COUNT threads both constructors, run alone, end.
  pub construct-ok :
      (n : ℕ) (m : Mem)
      → n ≤ max_threads
      → ((m' : Mem) × (exec allocator (Queue.construct n) m ≡ ok tt m'))
        × ((m' : Mem) × (exec allocator (Stack.construct n) m ≡ ok tt m'))
  construct-ok n m h =
      let (r1, e1, _) = queue_counters allocator n m in
      let (r2, e2, _) = stack_counters allocator n m in
      let queue_memory : Mem = record (made n (allocator m.live) r1 m) {
        head_word = allocator m.live;
        tail_word = allocator m.live;
      } in
      let stack_memory : Mem = record (made n (allocator m.live) r2 m) {
        top_word = allocator m.live;
      } in
      let few : n + 0 ≤ max_threads = omega (arith, h) in
      let (c1, e3) = counters_run allocator n 0 queue_memory few in
      let (c2, e4) = counters_run allocator n 0 stack_memory few in ((_, e1 ∙ e3), (_, e2 ∙ e4))
