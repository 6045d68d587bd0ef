-- ===== src/HazardEras/Retire.antt =====
-- hazarderas.hpp: `retireNode` with no other thread in between, on an empty retired list.
use smr_implementations.Prelude.{
  ==_refl, Bool, List, [], ap, arith, decr, false, get_elem?, has, if◌then◌else◌, incr, length,
  le→ltb, lt→ltb, not, refl, remove, some, subst, suc, sym, true, ℕ, ◌%◌, ◌++◌, ◌+◌, ◌<◌, ◌==◌, ◌^◌,
  ◌∙◌, ◌∷◌, ◌≡◌, ◌≢◌, ◌≤◌,
}
use smr_implementations.Machine.{
  Mem, clock, death, fetch_add, max_threads, perform, read, ret, retired_count, run,
  slots_per_thread, update, valid, write,
}
use smr_implementations.Machine.Exec.{Returns, exec, exec-then, ok, returns}
use smr_implementations.Machine.Steps.{
  at-step, false-step, load-step, push_back-step, ret-step, size-step, store-step, true-step,
}
use smr_implementations.HazardEras.Manager.{can_remove_node, reclaim, retire_node, sweep}
use smr_implementations.HazardEras.Eras.{can_remove_node-own_row, row_holds}

-- The memory after `reclaim` of the only retired node.
abbrev reclaimed : (p thread : ℕ) → Mem → Mem
reclaimed p thread m = record m {
  retired = update m.retired thread [];
  live = remove p m.live;
  retired_counts = update m.retired_counts thread (decr (m.retired_counts thread));
}

-- The memory after a sweep of the only retired node, which is kept or reclaimed.
abbrev swept : (kept : Bool) → (p thread : ℕ) → Mem → Mem
swept true p thread m = m
swept false p thread m = reclaimed p thread m

module _ (allocator : List ℕ → ℕ) where
  reclaim_run :
      (p thread : ℕ) (m : Mem)
      → thread < max_threads
      → m.retired thread ≡ p ∷ []
      → p ≢ 0
      → has p m.live ≡ true
      → exec allocator (reclaim 0 p thread) m ≡ ok tt (reclaimed p thread m)
  unfolding exec reclaim perform
  reclaim_run p thread m inside one ne alive = ground arith

  sweep_end :
      (fuel i thread : ℕ) (m : Mem)
      → thread < max_threads
      → length (m.retired thread) ≤ i
      → exec allocator (sweep (suc fuel) i thread) m ≡ ok tt m
  unfolding sweep
  sweep_end fuel i thread m inside past =
      size-step allocator _ m thread (lt→ltb _ _ inside)
      ∙ false-step allocator _ _ m _ (le→ltb i _ past)
      ∙ ret-step allocator tt m

  -- What the sweep does with the node, by what `canRemoveNode` says of it.
  settle :
      (p thread : ℕ) (m : Mem) (kept : Bool)
      → thread < max_threads
      → m.retired thread ≡ p ∷ []
      → p ≢ 0
      → has p m.live ≡ true
      → exec allocator (if not kept then reclaim 0 p thread else ret tt) m
        ≡ ok tt (swept kept p thread m)
  settle p thread m true inside one ne alive = ret-step allocator tt m
  settle p thread m false inside one ne alive = reclaim_run p thread m inside one ne alive

  length-swept :
      (p thread : ℕ) (m : Mem) (kept : Bool)
      → m.retired thread ≡ p ∷ []
      → length ((swept kept p thread m).retired thread) ≤ 1
  length-swept p thread m true one = rw one (omega arith)
  length-swept p thread m false one = ground arith

  sweep_one :
      (fuel p thread : ℕ) (m : Mem)
      → thread < max_threads
      → m.rows thread ≡ true
      → m.retired thread ≡ p ∷ []
      → p ≢ 0
      → has p m.live ≡ true
      → exec allocator (sweep (suc (suc fuel)) 0 thread) m
        ≡ ok tt (
            swept
              (row_holds (m.slots thread) slots_per_thread 0 (m.birth_of p) (m.death_of p))
              p
              thread
              m)
  unfolding sweep
  sweep_one fuel p thread m inside row one ne alive =
      let kept : Bool =
        row_holds (m.slots thread) slots_per_thread 0 (m.birth_of p) (m.death_of p) in
      let long : 0 < length (m.retired thread) = rw one (omega arith) in
      let at_0 : get_elem? (m.retired thread) 0 ≡ some p = rw one refl in
      size-step allocator _ m thread (lt→ltb _ _ inside)
      ∙ true-step allocator _ _ m _ (lt→ltb 0 (length (m.retired thread)) long)
      ∙ at-step allocator _ m thread 0 at_0
      ∙ exec-then allocator (can_remove_node p thread) _ m
          (can_remove_node-own_row allocator m p alive thread row)
      ∙ exec-then allocator (if not kept then reclaim 0 p thread else ret tt) _ m
          (settle p thread m kept inside one ne alive)
      ∙ sweep_end fuel (0 + 1) thread (swept kept p thread m) inside
          (length-swept p thread m kept one)

  tick :
      (m : Mem)
      → exec allocator (run (fetch_add clock 1)) m
        ≡ ok tt (record m { clock_word = (m.clock_word + 1) % 2 ^ 64 })
  unfolding exec perform valid read write
  tick m = refl

-- What `retireNode` leaves, by whether the node is kept.
abbrev pub Settled : (kept : Bool) → (p thread : ℕ) → (m m' : Mem) → Type 0
Settled kept p thread m m' =
    (m'.live ≡ (if kept then m.live else remove p m.live))
    × (m'.retired thread ≡ (if kept then p ∷ [] else []))
    × (m'.slots ≡ m.slots)
    × (m'.clock_word ≡ (m.clock_word + 1) % 2 ^ 64)
    × (m'.birth_of ≡ m.birth_of)
    × (m'.death_of p ≡ m.clock_word)

swept-Settled :
    (kept : Bool) (p thread d : ℕ) (m : Mem)
    → m.retired thread ≡ p ∷ []
    → m.death_of p ≡ d
    → ((swept kept p thread m).live ≡ (if kept then m.live else remove p m.live))
      × ((swept kept p thread m).retired thread ≡ (if kept then p ∷ [] else []))
      × ((swept kept p thread m).slots ≡ m.slots)
      × ((swept kept p thread m).clock_word ≡ m.clock_word)
      × ((swept kept p thread m).birth_of ≡ m.birth_of)
      × ((swept kept p thread m).death_of p ≡ d)
swept-Settled true p thread d m one dated = (refl, one, refl, refl, refl, dated)
swept-Settled false p thread d m one dated = (refl, ground arith, refl, refl, refl, dated)

-- Run alone with an empty retired list and with fuel for two rounds, `retireNode` ends and moves the
-- clock on; it keeps the node exactly if one of the calling thread's own five slots holds an era of
-- the node's lifetime, which ends now, and deletes it otherwise, whatever the slots of the other
-- threads hold. So the era that another thread has published does not keep the node.
pub retire_node-Settled :
    (allocator : List ℕ → ℕ) (fuel p thread : ℕ) (m : Mem)
    → thread < max_threads
    → m.rows thread ≡ true
    → p ≢ 0
    → has p m.live ≡ true
    → m.retired thread ≡ []
    → Returns
        (λ r m'.
          Settled
            (row_holds (m.slots thread) slots_per_thread 0 (m.birth_of p) m.clock_word)
            p
            thread
            m
            m')
        (exec allocator (retire_node (suc (suc fuel)) p thread) m)
unfolding retire_node valid read write
retire_node-Settled allocator fuel p thread m inside row ne alive empty =
    let in_range = lt→ltb thread max_threads inside in
    let m1 : Mem = record m {
      death_of = update m.death_of p m.clock_word;
      retired = update m.retired thread (m.retired thread ++ p ∷ []);
    } in
    let m2 : Mem = record m1 {
      retired_counts = update m.retired_counts thread (incr (m.retired_counts thread));
    } in
    let m3 : Mem = record m2 { clock_word = (m.clock_word + 1) % 2 ^ 64 } in
    let kept : Bool = row_holds (m.slots thread) slots_per_thread 0 (m.birth_of p) m.clock_word in
    let listed : m3.retired thread ≡ m.retired thread ++ p ∷ [] = ground arith in
    let one : m3.retired thread ≡ p ∷ [] = listed ∙ ap (λ l. l ++ p ∷ []) empty in
    let dated : m3.death_of p ≡ m.clock_word = ground arith in
    let ran : exec allocator (retire_node (suc (suc fuel)) p thread) m
        ≡ ok tt (swept kept p thread m3) =
      load-step allocator _ m clock refl
      ∙ store-step allocator _ m (death p) m.clock_word alive
      ∙ push_back-step allocator _ _ thread p in_range
      ∙ load-step allocator _ m1 (retired_count thread) in_range
      ∙ store-step allocator _ m1 (retired_count thread) (incr (m.retired_counts thread)) in_range
      ∙ load-step allocator _ m2 clock refl
      ∙ exec-then allocator
          (if m.clock_word == m.clock_word then run (fetch_add clock 1) else ret tt) _ m2
          (true-step allocator _ _ m2 _ (==_refl m.clock_word) ∙ tick allocator m2)
      ∙ sweep_one allocator fuel p thread m3 inside row one ne alive
      ∙ ap
          (λ d.
            ok tt
              (swept (row_holds (m.slots thread) slots_per_thread 0 (m.birth_of p) d) p thread m3))
          dated in
    subst (Returns _) (sym ran) (returns (swept-Settled kept p thread m.clock_word m3 one dated))
