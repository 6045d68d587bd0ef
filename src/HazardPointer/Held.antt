-- ===== src/HazardPointer/Held.antt =====
-- hazardpointer.hpp: the loops of `retireNode` over the slots, with no other thread in between.
use smr_implementations.Prelude.{
  Bool, List, arith, false, not, refl, suc, true, zero, ℕ, ◌&&◌, ◌+◌, ◌<◌, ◌==◌, ◌||◌, ◌∙◌, ◌≡◌,
}
use smr_implementations.Machine.{Mem, perform, slots_per_thread}
use smr_implementations.Machine.Exec.{exec, exec-then, ok}
use smr_implementations.HazardPointer.Manager.{scan_slots, scan_threads}

-- Whether one of the slots from `j` on of thread `k`, or of the threads from `k` on, holds `p`.
unfoldable pub slot_holds : (slots : ℕ → ℕ → ℕ) → (rounds j k p : ℕ) → Bool
slot_holds f zero j k p = false
slot_holds f (suc rounds) j k p = (f k j == p) || slot_holds f rounds (j + 1) k p

unfoldable pub thread_holds : (slots : ℕ → ℕ → ℕ) → (rounds k p : ℕ) → Bool
thread_holds f zero k p = false
thread_holds f (suc rounds) k p =
    slot_holds f slots_per_thread 0 k p || thread_holds f rounds (k + 1) p

module _ (allocator : List ℕ → ℕ) (m : Mem) where
  scan_slots_run :
      (rounds j k p : ℕ) (d : Bool)
      → m.rows k ≡ true
      → j + rounds ≡ slots_per_thread
      → exec allocator (scan_slots rounds j k p d) m
        ≡ ok (d && not (slot_holds m.slots rounds j k p)) m
  unfolding scan_slots exec perform slot_holds
  scan_slots_run zero j k p d row e = ground arith
  scan_slots_run (suc rounds) j k p d row e =
      ground (arith, scan_slots_run rounds (j + 1) k p d row)

  pub scan_threads_run :
      (rounds k p : ℕ) (d : Bool)
      → ((i : ℕ) → i < k + rounds → m.rows i ≡ true)
      → exec allocator (scan_threads rounds k p d) m
        ≡ ok (d && not (thread_holds m.slots rounds k p)) m
  unfolding scan_threads thread_holds exec
  scan_threads_run zero k p d row = ground arith
  scan_threads_run (suc rounds) k p d row =
      exec-then allocator (scan_slots slots_per_thread 0 k p d) _ m
        (scan_slots_run slots_per_thread 0 k p d (row k (omega arith)) refl)
      ∙ scan_threads_run rounds (k + 1) p (d && not (slot_holds m.slots slots_per_thread 0 k p))
          (λ i lt. row i (omega arith))
      ∙ ground arith
