-- ===== src/Urcu/Alone.antt =====
-- URCU.hpp with no other thread in between.
use smr_implementations.Prelude.{
  List, arith, incr, leb, lt→ltb, refl, suc, zero, ℕ, ◌+◌, ◌<◌, ◌∙◌, ◌≡◌, ◌≤◌,
}
use smr_implementations.Machine.{Mem, clock, for_loop, read, reservation, update, valid, write}
use smr_implementations.Machine.Exec.{exec, exec-then, ok}
use smr_implementations.Machine.Steps.{cas-step, false-step, load-step, ret-step, store-step}
use smr_implementations.Urcu.Manager.{
  not_reading, read_unlock, synchronize_rcu, unassigned, wait_reader,
}

-- No thread is reading.
abbrev pub IsIdle : (n : ℕ) → Mem → Type 0
IsIdle n m = (n ≤ m.num_reserved) × ((k : ℕ) → k < n → unassigned ≤ m.reserved k)

-- The memory with a thread's version set to NOT_READING, and with the updater's version raised.
abbrev pub unlocked : (thread : ℕ) → Mem → Mem
unlocked thread m = record m { reserved = update m.reserved thread not_reading }

abbrev pub raised : Mem → Mem
raised m = record m { clock_word = incr m.clock_word }

module _ (allocator : List ℕ → ℕ) where
  pub read_unlock-unlocked :
      (thread : ℕ) (m : Mem)
      → thread < m.num_reserved
      → exec allocator (read_unlock thread) m ≡ ok tt (unlocked thread m)
  unfolding read_unlock valid write
  read_unlock-unlocked thread m lt =
      store-step allocator _ m (reservation thread) not_reading (lt→ltb _ _ lt)
      ∙ ret-step allocator tt _

  wait_reader_run :
      (spins version i : ℕ) (m : Mem)
      → i < m.num_reserved
      → version < m.reserved i
      → exec allocator (wait_reader (suc spins) version i) m ≡ ok tt m
  unfolding wait_reader valid read
  wait_reader_run spins version i m inside late =
      load-step allocator _ m (reservation i) (lt→ltb _ _ inside)
      ∙ false-step allocator _ _ m (leb (m.reserved i) version) (ground arith)
      ∙ ret-step allocator tt m

  wait_readers_run :
      (rounds i spins version : ℕ) (m : Mem)
      → rounds + i ≤ m.num_reserved
      → ((k : ℕ) → k < rounds + i → version < m.reserved k)
      → exec allocator (for_loop rounds i (wait_reader (suc spins) version)) m ≡ ok tt m
  unfolding for_loop
  wait_readers_run zero i spins version m inside late = ret-step allocator tt m
  wait_readers_run (suc rounds) i spins version m inside late =
      exec-then allocator (wait_reader (suc spins) version i) _ m
        (wait_reader_run spins version i m (omega arith) (late i (omega arith)))
      ∙ wait_readers_run rounds (i + 1) spins version m (omega arith) (λ k lt. late k (omega arith))

  -- With no reader, `synchronizeRCU` ends at once and only raises the updater's version.
  pub synchronize_rcu-raised :
      (spins n : ℕ) (m : Mem)
      → IsIdle n m
      → m.clock_word < unassigned
      → exec allocator (synchronize_rcu (suc spins) n) m ≡ ok tt (raised m)
  unfolding synchronize_rcu valid read write
  synchronize_rcu-raised spins n m (inside, idle) early =
      let v = m.clock_word in
      load-step allocator _ m clock refl
      ∙ cas-step allocator _ m clock v (incr v) refl refl
      ∙ wait_readers_run n 0 spins v (raised m) (omega arith)
          (λ k lt. let late = idle k (omega arith) in omega arith)
