-- ===== src/IntervalBased/Examples.antt =====
-- IntervalBasedReclamation.hpp at concrete inputs.
use smr_implementations.Prelude.{
  [], arith, get_elem?, if◌then◌else◌, refl, remove, some, true, uint64_max, ℕ, ◌==◌, ◌↔◌, ◌∷◌, ◌≡◌,
  ◌≤◌,
}
use smr_implementations.Machine.{Mem}
use smr_implementations.Machine.Exec.{Returns, exec}
use smr_implementations.Machine.Sample.{bump, two_nodes}
use smr_implementations.Machine.Guarded.{Guarded}
use smr_implementations.IntervalBased.Retire.{retire_node-deletes}
use smr_implementations.IntervalBased.Manager.{conflict, retire_node}
use smr_implementations.IntervalBased.Conflict.{conflict_iff}
use smr_implementations.IntervalBased.Safety.{FreesOutlived, retire_node-FreesOutlived}

-- Thread 1 is in an operation that began at epoch 3, and thread 0 retires node 12, born at epoch 5.
abbrev reserved_early : Mem
reserved_early = record two_nodes {
  clock_word = 6;
  birth_of = λ q. 5;
  reserved = λ k. if k == 1 then 3 else uint64_max;
  num_reserved = 2;
}

retire_node-deletes_example :
    Returns
      (λ r m'.
        (m'.live ≡ remove 12 reserved_early.live)
        × (m'.retired 0 ≡ [])
        × (m'.reserved ≡ reserved_early.reserved))
      (exec bump (retire_node 2 2 30 12 0) reserved_early)
retire_node-deletes_example =
    retire_node-deletes bump 0 2 30 12 0 reserved_early (omega arith) (omega arith) (omega arith)
      refl refl (omega arith) refl (λ k lt. ground arith)

FreesOutlived_example : Guarded (FreesOutlived 2) (retire_node 5 2 30 12 0) [] (λ _ _. Unit)
FreesOutlived_example = retire_node-FreesOutlived 2 5 30 12 0

conflict_iff_example :
    (conflict (uint64_max ∷ 7 ∷ []) 6 8 ≡ true)
    ↔ ((i : ℕ) × (e : ℕ) × (get_elem? (uint64_max ∷ 7 ∷ []) i ≡ some e) × (6 ≤ e) × (e ≤ 8))
conflict_iff_example = conflict_iff (uint64_max ∷ 7 ∷ []) 6 8
