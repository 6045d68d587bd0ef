-- ===== src/IntervalBased/Retire.antt =====
-- IntervalBasedReclamation.hpp: `retireNode` with no other thread in between, on an empty retired list.
use smr_implementations.Prelude.{
  List, [], ap, arith, decr, false, get_elem?, has, if◌then◌else◌, incr, inl, inr, length, le→ltb,
  lt→ltb, refl, remove, some, subst, suc, sym, true, zero, ℕ, ◌%◌, ◌++◌, ◌+◌, ◌<◌, ◌==◌, ◌∙◌, ◌∷◌,
  ◌≡◌, ◌≢◌, ◌≤◌, ◌⊎◌,
}
use smr_implementations.Machine.{
  Mem, birth, clock, death, max_threads, perform, read, remainder, reservation, ret, retire_stat,
  retired_count, update, valid, write,
}
use smr_implementations.Machine.Exec.{Returns, exec, exec-then, ok, returns}
use smr_implementations.Machine.Steps.{
  at-step, false-step, load-step, push_back-step, remainder-step, ret-step, size-step, store-step,
  true-step,
}
use smr_implementations.IntervalBased.Manager.{
  conflict, empty_retire_list, reclaim, retire_node, snapshot, sweep,
}

-- The epochs that `snapshot` reads.
abbrev pub epochs : (reserved : ℕ → ℕ) → (rounds i : ℕ) → List ℕ
epochs reserved zero i = []
epochs reserved (suc rounds) i = reserved i ∷ epochs reserved rounds (i + 1)

-- The memory after `reclaim` of the only retired node.
abbrev pub reclaimed : (p thread : ℕ) → Mem → Mem
reclaimed p thread m = record m {
  retired = update m.retired thread [];
  live = remove p m.live;
  retire_stats = update m.retire_stats thread (decr (m.retire_stats thread));
  retired_counts = update m.retired_counts thread (decr (m.retired_counts thread));
}

module _ (allocator : List ℕ → ℕ) where
  snapshot_run :
      (rounds i : ℕ) (m : Mem)
      → rounds + i ≤ m.num_reserved
      → exec allocator (snapshot rounds i) m ≡ ok (epochs m.reserved rounds i) m
  unfolding snapshot valid read
  snapshot_run zero i m h = ret-step allocator [] m
  snapshot_run (suc rounds) i m h =
      load-step allocator _ m (reservation i) (lt→ltb _ _ (omega arith))
      ∙ exec-then allocator (snapshot rounds (i + 1)) _ m
          (snapshot_run rounds (i + 1) m (omega arith))
      ∙ ret-step allocator _ m

  reclaim_run :
      (p thread : ℕ) (m : Mem)
      → thread < max_threads
      → m.retired thread ≡ p ∷ []
      → p ≢ 0
      → has p m.live ≡ true
      → exec allocator (reclaim 0 p thread) m ≡ ok tt (reclaimed p thread m)
  unfolding exec reclaim perform
  reclaim_run p thread m inside one ne alive = ground arith

  sweep_end :
      (fuel i thread : ℕ) (reserved : List ℕ) (m : Mem)
      → thread < max_threads
      → length (m.retired thread) ≤ i
      → exec allocator (sweep (suc fuel) reserved i thread) m ≡ ok tt m
  unfolding sweep
  sweep_end fuel i thread reserved m inside past =
      size-step allocator _ m thread (lt→ltb _ _ inside)
      ∙ false-step allocator _ _ m _ (le→ltb i _ past)
      ∙ ret-step allocator tt m

  sweep_one :
      (fuel p thread : ℕ) (reserved : List ℕ) (m : Mem)
      → thread < max_threads
      → m.retired thread ≡ p ∷ []
      → p ≢ 0
      → has p m.live ≡ true
      → conflict reserved (m.birth_of p) (m.death_of p) ≡ false
      → exec allocator (sweep (suc (suc fuel)) reserved 0 thread) m ≡ ok tt (reclaimed p thread m)
  unfolding sweep valid read
  sweep_one fuel p thread reserved m inside one ne alive none_in =
      let long : 0 < length (m.retired thread) = rw one (omega arith) in
      let at_0 : get_elem? (m.retired thread) 0 ≡ some p = rw one refl in
      size-step allocator _ m thread (lt→ltb _ _ inside)
      ∙ true-step allocator _ _ m _ (lt→ltb 0 (length (m.retired thread)) long)
      ∙ at-step allocator _ m thread 0 at_0
      ∙ load-step allocator _ m (birth p) alive
      ∙ load-step allocator _ m (death p) alive
      ∙ exec-then allocator
          (if conflict reserved (m.birth_of p) (m.death_of p) then ret tt else reclaim 0 p thread) _
          m (false-step allocator _ _ m _ none_in ∙ reclaim_run p thread m inside one ne alive)
      ∙ sweep_end fuel (0 + 1) thread reserved (reclaimed p thread m) inside (ground arith)

-- Where every epoch lies before the birth or after the retirement, none conflicts.
conflict-outside :
    (reserved : ℕ → ℕ) (b r rounds i : ℕ)
    → ((k : ℕ) → k < rounds + i → (reserved k < b) ⊎ (r < reserved k))
    → conflict (epochs reserved rounds i) b r ≡ false
unfolding conflict
conflict-outside reserved b r zero i out = refl
conflict-outside reserved b r (suc rounds) i out =
    let here = out i (omega arith) in
    let others = conflict-outside reserved b r rounds (i + 1) (λ k lt. out k (omega arith)) in
    elim here [
      | inl before ↦ ground (arith, before, others)
      | inr after ↦ ground (arith, after, others)
    ]

-- Run alone with an empty retired list and with fuel for two rounds, when the frequency is not 0, the
-- count of retirements is a multiple of it, and the epoch of every thread lies before the birth of the node or after
-- the clock, `retireNode` ends; it deletes the node, leaves the list empty and keeps the epochs. So an
-- operation that began before the node was born does not keep it.
pub retire_node-deletes :
    (allocator : List ℕ → ℕ) (fuel n emf p thread : ℕ) (m : Mem)
    → thread < max_threads
    → n ≤ m.num_reserved
    → p ≢ 0
    → has p m.live ≡ true
    → m.retired thread ≡ []
    → emf ≢ 0
    → m.retire_stats thread % emf ≡ 0
    → ((k : ℕ) → k < n → (m.reserved k < m.birth_of p) ⊎ (m.clock_word < m.reserved k))
    → Returns
        (λ r m'.
          (m'.live ≡ remove p m.live) × (m'.retired thread ≡ []) × (m'.reserved ≡ m.reserved))
        (exec allocator (retire_node (suc (suc fuel)) n emf p thread) m)
unfolding retire_node empty_retire_list valid read write
retire_node-deletes allocator fuel n emf p thread m inside few ne alive empty some_frequency due
      out =
    let in_range = lt→ltb thread max_threads inside in
    let m1 : Mem = record m {
      death_of = update m.death_of p m.clock_word;
      retired = update m.retired thread (m.retired thread ++ p ∷ []);
    } in
    let m2 : Mem = record m1 {
      retired_counts = update m.retired_counts thread (incr (m.retired_counts thread));
    } in
    let m3 : Mem = reclaimed p thread m2 in
    let m4 : Mem = record m3 {
      retire_stats = update m3.retire_stats thread (incr (m3.retire_stats thread));
    } in
    let listed : m2.retired thread ≡ m.retired thread ++ p ∷ [] = ground arith in
    let one : m2.retired thread ≡ p ∷ [] = listed ∙ ap (λ l. l ++ p ∷ []) empty in
    let dated : m2.death_of p ≡ m.clock_word = ground arith in
    let none_in : conflict (epochs m.reserved n 0) (m2.birth_of p) (m2.death_of p) ≡ false =
      subst (λ d. conflict (epochs m.reserved n 0) (m.birth_of p) d ≡ false) (sym dated)
        (conflict-outside m.reserved (m.birth_of p) m.clock_word n 0
          (λ k lt. out k (omega arith))) in
    let its_turn : ((m.retire_stats thread % emf) == 0) ≡ true = ground (arith, due) in
    let ran : exec allocator (retire_node (suc (suc fuel)) n emf p thread) m ≡ ok tt m4 =
      false-step allocator _ _ m (p == 0) (ground arith)
      ∙ load-step allocator _ m clock refl
      ∙ store-step allocator _ m (death p) m.clock_word alive
      ∙ push_back-step allocator _ _ thread p in_range
      ∙ load-step allocator _ m1 (retired_count thread) in_range
      ∙ store-step allocator _ m1 (retired_count thread) (incr (m.retired_counts thread)) in_range
      ∙ load-step allocator _ m2 (retire_stat thread) in_range
      ∙ exec-then allocator (remainder (m.retire_stats thread) emf) _ m2
          (remainder-step allocator (m.retire_stats thread) emf m2 some_frequency)
      ∙ exec-then allocator
          (if (m.retire_stats thread % emf) == 0
            then empty_retire_list (suc (suc fuel)) n thread
            else ret tt)
          _ m2
          (true-step allocator _ _ m2 _ its_turn
            ∙ exec-then allocator (snapshot n 0) _ m2 (snapshot_run allocator n 0 m2 (omega arith))
            ∙ sweep_one allocator fuel p thread (epochs m.reserved n 0) m2 inside one ne alive
                none_in)
      ∙ load-step allocator _ m3 (retire_stat thread) in_range
      ∙ store-step allocator _ m3 (retire_stat thread) (incr (m3.retire_stats thread)) in_range
      ∙ ret-step allocator tt m4 in
    subst (Returns _) (sym ran) (returns (refl, ground arith, refl))
