-- ===== src/HazardEras/Eras.antt =====
-- hazarderas.hpp: what `canRemoveNode` decides, and what it leaves out.
use smr_implementations.Prelude.{
  Bool, Bool-cases, List, ap, arith, false, has, inl, inr, leb, not, refl, suc, true, zero, ℕ, ◌&&◌,
  ◌+◌, ◌==◌, ◌||◌, ◌∙◌, ◌≡◌,
}
use smr_implementations.Machine.{Mem, perform, read, slot, slots_per_thread, valid}
use smr_implementations.Machine.Exec.{exec, exec-then, ok}
use smr_implementations.Machine.Steps.{load-step}
use smr_implementations.HazardEras.Manager.{can_remove_node, check_rows, check_slots, misses}

-- An era holds a node if it is not empty and lies in the node's lifetime, both ends included.
unfoldable pub era_holds : (era b d : ℕ) → Bool
era_holds era b d = not (era == 0) && (leb b era && leb era d)

-- Whether one of the slots from `j` on in a row of eras holds the node.
unfoldable pub row_holds : (row : ℕ → ℕ) → (rounds j b d : ℕ) → Bool
row_holds row zero j b d = false
row_holds row (suc rounds) j b d = era_holds (row j) b d || row_holds row rounds (j + 1) b d

module _ (allocator : List ℕ → ℕ) (m : Mem) (p : ℕ) (alive : has p m.live ≡ true) where
  misses_run :
      (era : ℕ)
      → exec allocator (misses era p) m ≡ ok (not (era_holds era (m.birth_of p) (m.death_of p))) m
  unfolding misses exec perform valid read era_holds
  misses_run era = ground arith

  check_slots_run :
      (rounds j thread : ℕ)
      → m.rows thread ≡ true
      → j + rounds ≡ slots_per_thread
      → exec allocator (check_slots rounds j p thread) m
        ≡ ok (not (row_holds (m.slots thread) rounds j (m.birth_of p) (m.death_of p))) m
  unfolding check_slots row_holds exec valid read
  check_slots_run zero j thread row e = refl
  check_slots_run (suc rounds) j thread row e =
      load-step allocator _ m (slot thread j) (ground arith)
      ∙ exec-then allocator (misses (m.slots thread j) p) _ m (misses_run (m.slots thread j))
      ∙ elim (Bool-cases (era_holds (m.slots thread j) (m.birth_of p) (m.death_of p))) [
        | inl held ↦ rw held
        | inr loose ↦ rw loose (check_slots_run rounds (j + 1) thread row (omega arith))
      ]

  check_rows_run :
      (rounds thread : ℕ)
      → m.rows thread ≡ true
      → exec allocator (check_rows (suc rounds) p thread) m
        ≡ ok (not (row_holds (m.slots thread) slots_per_thread 0 (m.birth_of p) (m.death_of p))) m
  unfolding check_rows exec
  check_rows_run zero thread row =
      exec-then allocator (check_slots slots_per_thread 0 p thread) _ m
        (check_slots_run slots_per_thread 0 thread row refl)
      ∙ elim (Bool-cases
          (row_holds (m.slots thread) slots_per_thread 0 (m.birth_of p) (m.death_of p))) [
            | inl held ↦ rw held
            | inr loose ↦ rw loose
          ]
  check_rows_run (suc rounds) thread row =
      exec-then allocator (check_slots slots_per_thread 0 p thread) _ m
        (check_slots_run slots_per_thread 0 thread row refl)
      ∙ elim (Bool-cases
          (row_holds (m.slots thread) slots_per_thread 0 (m.birth_of p) (m.death_of p))) [
            | inl held ↦ rw held
            | inr loose ↦ rw (ap not loose) (check_rows_run rounds thread row ∙ rw loose)
          ]

  -- Run alone, `canRemoveNode` is true exactly when none of the calling thread's own five slots
  -- holds an era of the node's lifetime; what the other threads' slots hold has no part in it.
  pub can_remove_node-own_row :
      (thread : ℕ)
      → m.rows thread ≡ true
      → exec allocator (can_remove_node p thread) m
        ≡ ok (not (row_holds (m.slots thread) slots_per_thread 0 (m.birth_of p) (m.death_of p))) m
  unfolding can_remove_node
  can_remove_node-own_row thread row = check_rows_run 39 thread row
