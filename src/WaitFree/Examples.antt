-- ===== src/WaitFree/Examples.antt =====
-- Methods of the managers, called for thread 1.
use smr_implementations.Prelude.{[], arith, uint64_max, ℕ, ◌<◌, ◌==◌, ◌≡◌, ◌%◌, if◌then◌else◌}
use smr_implementations.Machine.{alloc_stat, birth, reservation, slot, slots_per_thread}
use smr_implementations.Machine.Bounded.{Finishes, Holds}
use smr_implementations.HazardPointer.Manager
use smr_implementations.HazardEras.Manager as Eras
use smr_implementations.IntervalBased.Manager as Intervals
use smr_implementations.Urcu.Manager as Rcu
use smr_implementations.Urcu.Manager.{not_reading}
use smr_implementations.WaitFree.{
  AtClock, OwnAllocation, alloc_node-Finishes, ticks, OwnReservation, OwnSlots,
  reservations-Finishes, slots-Finishes,
}

slots-Finishes_example :
    Finishes
      (OwnSlots 1)
      5
      (Manager.clear 1)
      []
      (λ _ h. (j : ℕ) → j < slots_per_thread → Holds (slot 1 j) 0 h)
    × Finishes
        (OwnSlots 1)
        5
        (Eras.clear 1)
        []
        (λ _ h. (j : ℕ) → j < slots_per_thread → Holds (slot 1 j) 0 h)
    × Finishes
        (OwnSlots 1)
        3
        (Eras.protect_era_release 2 0 1)
        []
        (λ _ h. (e : ℕ) × Holds (slot 1 0) e h × Holds (slot 1 2) e h)
slots-Finishes_example = slots-Finishes 1 2 0 (omega arith) (omega arith)

reservations-Finishes_example :
    Finishes (OwnReservation 1) 2 (Intervals.start_op 1) [] (λ _ h. AtClock (reservation 1) h)
    × Finishes (OwnReservation 1) 4 (Rcu.read_lock 1) [] (λ _ h. AtClock (reservation 1) h)
    × Finishes
        (OwnReservation 1)
        1
        (Intervals.end_op 1)
        []
        (λ _ h. Holds (reservation 1) uint64_max h)
    × Finishes
        (OwnReservation 1)
        1
        (Rcu.read_unlock 1)
        []
        (λ _ h. Holds (reservation 1) not_reading h)
reservations-Finishes_example = reservations-Finishes 1

alloc_node-Finishes_example :
    Finishes (OwnAllocation 1 12) 6 (Intervals.alloc_node 150 1 12) [] (λ q h.
      (q ≡ 12)
      × AtClock (birth 12) h
      × ((s : ℕ) × Holds (alloc_stat 1) s h × (ticks h ≡ (if s % 150 == 0 then 1 else 0))))
alloc_node-Finishes_example = alloc_node-Finishes 150 1 12 (omega arith)
