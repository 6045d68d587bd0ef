-- ===== src/WaitFree.antt =====
-- Methods of the four managers that have no loop around a compare-and-exchange and no wait: what they
-- leave in the words of their thread, whatever other threads do meanwhile.
mod Examples
use smr_implementations.Prelude.{
  [], Bool-cases, ℕ_discrete, ap, arith, dec_lt, false, if◌then◌else◌, inl, inr, refl, suc, true,
  uint64_max, zero, ℕ, ◌%◌, ◌+◌, ◌<◌, ◌==◌, ◌∷◌, ◌≡◌, ◌≢◌,
}
use smr_implementations.Machine.{
  Cmd, Loc, alloc_stat, birth, clock, fetch_add, for_loop, load, remainder, reservation, ret, run,
  slot, slots_per_thread, store, ◌>>=◌, ◌>>◌,
}
use smr_implementations.Machine.Guarded.{History}
use smr_implementations.Machine.Bounded.{Finishes, Finishes-if, Holds, now, since}
use smr_implementations.HazardPointer.Manager
use smr_implementations.HazardEras.Manager as Eras
use smr_implementations.IntervalBased.Manager as Intervals
use smr_implementations.Urcu.Manager as Rcu
use smr_implementations.Urcu.Manager.{not_reading}

-- Reads and writes of slots of the thread, with an index in range.
abbrev pub OwnSlots : (thread : ℕ) → History → Cmd → Type 0
OwnSlots thread h (load (slot k j)) = (k ≡ thread) × (j < slots_per_thread)
OwnSlots thread h (store (slot k j) v) = (k ≡ thread) × (j < slots_per_thread)
OwnSlots thread h c = ⊥

-- Reads of the clock, and writes of the reservation of the thread.
abbrev pub OwnReservation : (thread : ℕ) → History → Cmd → Type 0
OwnReservation thread h (load clock) = Unit
OwnReservation thread h (store (reservation k) v) = k ≡ thread
OwnReservation thread h c = ⊥

-- The word has been left at the value that the clock was last read to have.
abbrev pub AtClock : Loc → History → Type 0
AtClock l h = (e : ℕ) × Holds clock e h × Holds l e h

-- The first slots of the thread are empty.
abbrev Cleared : (thread slots : ℕ) → History → Type 0
Cleared thread slots h = (j : ℕ) → j < slots → Holds (slot thread j) 0 h

one_more :
    (thread i : ℕ) (h : History) (r : ℕ)
    → Cleared thread i h
    → Cleared thread (i + 1) ((store (slot thread i) 0, r) ∷ h)
one_more thread i h r cleared j lt = elim (dec_lt j i) [
  | yes earlier ↦ since (inr refl) (cleared j earlier)
  | no later ↦ let same : i ≡ j = omega arith in now (ground (arith, same), refl)
]

-- The loop of `clear`.
clear_loop :
    (thread rounds i : ℕ) (h : History)
    → rounds + i ≡ slots_per_thread
    → Cleared thread i h
    → Finishes
        (OwnSlots thread)
        rounds
        (for_loop rounds i (λ k. run (store (slot thread k) 0)))
        h
        (λ _ h'. (j : ℕ) → j < slots_per_thread → Holds (slot thread j) 0 h')
unfolding for_loop
clear_loop thread zero i h e cleared = λ j lt. cleared j (omega arith)
clear_loop thread (suc rounds) i h e cleared = (
  (refl, omega arith),
  λ r. clear_loop thread rounds (i + 1) _ (omega arith) (one_more thread i h r cleared),
)

-- The slot whose era `protectEraRelease` copies holds it still, also where it is the same slot.
released :
    (thread index other era old r : ℕ)
    → Holds (slot thread other) era (
        (store (slot thread index) era, r)
        ∷ (load (slot thread index), old)
        ∷ (load (slot thread other), era)
        ∷ [])
released thread index other era old r = elim (ℕ_discrete index other) [
  | yes same ↦ now (ap (slot thread) same, refl)
  | no other_slot ↦ since (inr refl) (since (inl (λ e. other_slot (cc))) (now (refl, refl)))
]

-- Whatever other threads do meanwhile, these methods read and write only slots of their own thread, in
-- range, and end: both `clear` within five actions, with every slot of the thread empty;
-- `protectEraRelease`, of two indices in range, within three, with the same era in both slots.
pub slots-Finishes :
    (thread index other : ℕ)
    → index < slots_per_thread
    → other < slots_per_thread
    → Finishes
        (OwnSlots thread)
        5
        (Manager.clear thread)
        []
        (λ _ h. (j : ℕ) → j < slots_per_thread → Holds (slot thread j) 0 h)
      × Finishes
          (OwnSlots thread)
          5
          (Eras.clear thread)
          []
          (λ _ h. (j : ℕ) → j < slots_per_thread → Holds (slot thread j) 0 h)
      × Finishes
          (OwnSlots thread)
          3
          (Eras.protect_era_release index other thread)
          []
          (λ _ h. (e : ℕ) × Holds (slot thread other) e h × Holds (slot thread index) e h)
unfolding Manager.clear Eras.clear Eras.protect_era_release
slots-Finishes thread index other i_lt o_lt = (
  clear_loop thread 5 0 [] refl (λ j lt. absurd (omega arith)),
  clear_loop thread 5 0 [] refl (λ j lt. absurd (omega arith)),
  (
    (refl, o_lt),
    λ era. (
      (refl, i_lt),
      λ old.
          Finishes-if _ 1 (old == era) (ret tt) (run (store (slot thread index) era)) _ _
            (λ same.
              let equal : old ≡ era = ground arith in
              (era, since (inr equal) (now (refl, refl)), now (refl, equal)))
            λ _.
              ((refl, i_lt), λ r. (era, released thread index other era old r, now (refl, refl))),
    ),
  ),
)

-- Whatever other threads do meanwhile, these methods only read the clock and write the reservation of
-- their own thread, and end: `start_op` within two actions and `readLock` within four, with the value
-- that the clock was last read to have in the reservation; `end_op` and `readUnlock` within one, with
-- the mark of a thread that is not in an operation, or not reading, there.
pub reservations-Finishes :
    (thread : ℕ)
    → Finishes
        (OwnReservation thread)
        2
        (Intervals.start_op thread)
        []
        (λ _ h. AtClock (reservation thread) h)
      × Finishes
          (OwnReservation thread)
          4
          (Rcu.read_lock thread)
          []
          (λ _ h. AtClock (reservation thread) h)
      × Finishes
          (OwnReservation thread)
          1
          (Intervals.end_op thread)
          []
          (λ _ h. Holds (reservation thread) uint64_max h)
      × Finishes
          (OwnReservation thread)
          1
          (Rcu.read_unlock thread)
          []
          (λ _ h. Holds (reservation thread) not_reading h)
unfolding Intervals.start_op Intervals.end_op Rcu.read_lock Rcu.read_unlock
reservations-Finishes thread = (
  (tt, λ e. (refl, λ r. (e, since (inl (λ q. cc)) (now (refl, refl)), now (refl, refl)))),
  (
    tt,
    λ rv. (
      refl,
      λ r. (
        tt,
        λ nrv.
            Finishes-if _ 1 (rv == nrv) (ret tt) (run (store (reservation thread) nrv)) _ _
              (λ same.
                let equal : rv ≡ nrv = ground arith in
                (nrv, now (refl, refl), since (inl (λ q. cc)) (now (refl, equal))))
              λ _. (refl, λ _. (nrv, since (inl (λ q. cc)) (now (refl, refl)), now (refl, refl))),
      ),
    ),
  ),
  (refl, λ r. now (refl, refl)),
  (refl, λ r. now (refl, refl)),
)

-- Reads and writes of the thread's count of allocations, reads and additions of the clock, and writes of
-- the birth epoch of the node.
abbrev pub OwnAllocation : (thread p : ℕ) → History → Cmd → Type 0
OwnAllocation thread p h (load clock) = Unit
OwnAllocation thread p h (fetch_add clock n) = Unit
OwnAllocation thread p h (load (alloc_stat k)) = k ≡ thread
OwnAllocation thread p h (store (alloc_stat k) v) = k ≡ thread
OwnAllocation thread p h (store (birth q) v) = q ≡ p
OwnAllocation thread p h c = ⊥

-- By how much the thread has moved the clock on.
abbrev pub ticks : History → ℕ
ticks [] = 0
ticks ((fetch_add clock n, r) ∷ h) = n + ticks h
ticks (e ∷ h) = ticks h

-- Whatever other threads do meanwhile, and for a frequency that is not 0, `allocNode` ends within six
-- actions, on the count of its thread, the clock and the birth epoch of the node only. It returns the
-- node, its birth epoch is what the clock was last read to be, and the clock has been moved on by one
-- if the count, as it was last read, is a multiple of the frequency, and not otherwise.
pub alloc_node-Finishes :
    (epf thread p : ℕ)
    → epf ≢ 0
    → Finishes (OwnAllocation thread p) 6 (Intervals.alloc_node epf thread p) [] (λ q h.
      (q ≡ p)
      × AtClock (birth p) h
      × ((s : ℕ) × Holds (alloc_stat thread) s h × (ticks h ≡ (if s % epf == 0 then 1 else 0))))
unfolding Intervals.alloc_node Intervals.get_global_epoch remainder
alloc_node-Finishes epf thread p ne =
    let defined : (epf == 0) ≡ false = ground arith in
    (
      refl,
      λ a. (
        refl,
        λ r. (
          refl,
          λ s. elim (Bool-cases (s % epf == 0)) [
            | inl due ↦ rw defined (
                rw due (
                  tt,
                  λ _. (
                    tt,
                    λ e. (
                      refl,
                      λ _. (
                        refl,
                        (e, since (inl (λ q. cc)) (now (refl, refl)), now (refl, refl)),
                        (
                          s,
                          since (inl (λ q. cc))
                              (since (inl (λ q. cc)) (since (λ q. cc) (now (refl, refl)))),
                          rw due refl,
                        ),
                      ),
                    ),
                  ),
                ))
            | inr early ↦ rw defined (
                rw early (
                  tt,
                  λ e. (
                    refl,
                    λ _. (
                      refl,
                      (e, since (inl (λ q. cc)) (now (refl, refl)), now (refl, refl)),
                      (
                        s,
                        since (inl (λ q. cc)) (since (inl (λ q. cc)) (now (refl, refl))),
                        rw early refl,
                      ),
                    ),
                  ),
                ))
          ],
        ),
      ),
    )
