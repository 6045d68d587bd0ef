-- ===== src/HazardEras/Unprotected.antt =====
-- hazarderas.hpp: `get_protected` of one thread, and then `retireNode` of another, with no third thread
-- in between.
use smr_implementations.Prelude.{
  ==_refl, zero, List, Bool-cases, [], ap, arith, false, fun_ext, has, inl, inr, refl, remove,
  subst, suc, sym, true, ℕ, ◌+◌, ◌<◌, ◌==◌, ◌∙◌, ◌≡◌, ◌≢◌, ◌≤◌,
}
use smr_implementations.Machine.{
  Mem, clock, max_threads, read, slot, slots_per_thread, top, update2, valid, write, ◌>>=◌,
}
use smr_implementations.Machine.Exec.{Returns, exec, exec-then, mono, ok}
use smr_implementations.Machine.Steps.{false-step, load-step, ret-step, store-step, true-step}
use smr_implementations.HazardEras.Manager.{
  empty_era, get_protected, get_protected_loop, retire_node,
}
use smr_implementations.HazardEras.Eras.{era_holds, row_holds}
use smr_implementations.HazardEras.Retire.{Settled, retire_node-Settled}

row_holds-empty :
    (row : ℕ → ℕ) (rounds j b d : ℕ)
    → ((i : ℕ) → row i ≡ empty_era)
    → row_holds row rounds j b d ≡ false
unfolding row_holds era_holds
row_holds-empty row zero j b d empty = refl
row_holds-empty row (suc rounds) j b d empty =
    ground (arith, empty j, row_holds-empty row rounds (j + 1) b d empty)

-- The memory after `get_protected`: the era of the clock stands in the slot.
abbrev protected : (index k : ℕ) → Mem → Mem
protected index k m = record m { slots = update2 m.slots k index m.clock_word }

-- Where the era stood there before, the memory is the same.
protected_same : (index k : ℕ) (m : Mem) → m.slots k index ≡ m.clock_word → protected index k m ≡ m
protected_same index k m same =
    ap (λ s. record m { slots = s }) (fun_ext λ k'. fun_ext λ j'. ground (arith, same))

-- The last round of the loop, where the era of the clock stands in the slot.
settled_loop :
    (allocator : List ℕ → ℕ) (index k fuel : ℕ) (m : Mem)
    → exec allocator (get_protected_loop (suc fuel) index top k m.clock_word) m ≡ ok m.top_word m
unfolding get_protected_loop valid read
settled_loop allocator index k fuel m =
    load-step allocator _ m top refl
    ∙ load-step allocator _ m clock refl
    ∙ true-step allocator _ _ m _ (==_refl m.clock_word)
    ∙ ret-step allocator m.top_word m

-- `get_protected` of the top ends with fuel for two rounds.
module _ (allocator : List ℕ → ℕ) (index k : ℕ) (m : Mem) where
  get_protected_run :
      (fuel : ℕ)
      → m.rows k ≡ true
      → index < slots_per_thread
      → exec allocator (get_protected (suc (suc fuel)) index top k) m
        ≡ ok m.top_word (protected index k m)
  unfolding get_protected get_protected_loop valid read write
  get_protected_run fuel row i_lt =
      let defined : valid m (slot k index) ≡ true = ground (arith, row) in
      load-step allocator _ m (slot k index) defined
      ∙ load-step allocator _ m top refl
      ∙ load-step allocator _ m clock refl
      ∙ elim (Bool-cases (m.clock_word == m.slots k index)) [
        | inl same ↦
            true-step allocator _ _ m _ same
            ∙ ret-step allocator m.top_word m
            ∙ ap (ok m.top_word) (sym (protected_same index k m (ground (arith, same))))
        | inr older ↦
            false-step allocator _ _ m _ older
            ∙ store-step allocator _ m (slot k index) m.clock_word defined
            ∙ settled_loop allocator index k fuel (protected index k m)
      ]

-- What `retireNode` leaves of a node that only another thread protects.
freed :
    (index k thread p : ℕ) (m m' : Mem)
    → m.clock_word ≢ 0
    → m.birth_of p ≤ m.clock_word
    → Settled false p thread (protected index k m) m'
    → (m'.live ≡ remove p m.live)
      × (era_holds (m'.slots k index) (m'.birth_of p) (m'.death_of p) ≡ true)
unfolding era_holds
freed index k thread p m m' ticked born (live, retired, slots, clock_on, births, dated) =
    let held : m'.slots k index ≡ m.clock_word = ap (λ s. s k index) slots ∙ ground arith in
    let birth_kept : m'.birth_of p ≡ m.birth_of p = ap (λ f. f p) births in
    (live, rw (held, birth_kept, dated) (ground arith))

-- With no other thread in between: `get_protected` of one thread takes the node on top of a stack, which
-- was born at the era of the clock or before it, and `retireNode` of another thread, whose own slots and
-- retired list are empty, then deletes the node, although the slot of the first thread holds an era of
-- the node's lifetime. Both end, with fuel for two rounds each.
pub get_protected-retire_node :
    (allocator : List ℕ → ℕ) (fuel rounds index k thread : ℕ) (m : Mem)
    → thread < max_threads
    → k ≢ thread
    → m.rows k ≡ true
    → m.rows thread ≡ true
    → index < slots_per_thread
    → m.top_word ≢ 0
    → has m.top_word m.live ≡ true
    → m.retired thread ≡ []
    → ((i : ℕ) → m.slots thread i ≡ empty_era)
    → m.clock_word ≢ 0
    → m.birth_of m.top_word ≤ m.clock_word
    → Returns
        (λ r m'.
          (m'.live ≡ remove m.top_word m.live)
          × (era_holds (m'.slots k index) (m'.birth_of m.top_word) (m'.death_of m.top_word) ≡ true))
        (exec allocator
          (get_protected (suc (suc rounds)) index top k >>= λ p.
            retire_node (suc (suc fuel)) p thread)
          m)
get_protected-retire_node allocator fuel rounds index k thread m inside other row_k row i_lt ne
      alive empty own ticked born =
    let m1 : Mem = protected index k m in
    let p : ℕ = m.top_word in
    let own1 : (i : ℕ) → m1.slots thread i ≡ empty_era = λ i. ground (arith, own i) in
    let loose : row_holds (m1.slots thread) slots_per_thread 0 (m1.birth_of p) m1.clock_word
        ≡ false =
      row_holds-empty (m1.slots thread) slots_per_thread 0 _ _ own1 in
    let settled = retire_node-Settled allocator fuel p thread m1 inside row ne alive empty in
    subst (Returns _)
      (sym (
        exec-then allocator (get_protected (suc (suc rounds)) index top k) _ m
          (get_protected_run allocator index k m rounds row_k i_lt)))
      (mono settled λ r m' s.
        freed index k thread p m m' ticked born (subst (λ b. Settled b p thread m1 m') loose s))
