-- ===== src/HazardEras/Examples.antt =====
-- hazarderas.hpp at a concrete memory.
use smr_implementations.Prelude.{[], arith, if◌then◌else◌, not, refl, remove, true, ◌&&◌, ◌==◌, ◌≡◌}
use smr_implementations.Machine.{Mem, slots_per_thread, top, ◌>>=◌}
use smr_implementations.Machine.Exec.{Returns, exec, ok}
use smr_implementations.Machine.Sample.{bump, two_nodes}
use smr_implementations.HazardEras.Manager.{can_remove_node, get_protected, retire_node}
use smr_implementations.Machine.Guarded.{Guarded}
use smr_implementations.HazardEras.Protect.{
  ProtectedInEra, PublishesEra, get_protected-ProtectedInEra,
}
use smr_implementations.HazardEras.Unprotected.{get_protected-retire_node}
use smr_implementations.HazardEras.Retire.{Settled, retire_node-Settled}
use smr_implementations.HazardEras.Eras.{can_remove_node-own_row, era_holds, row_holds}

-- Node 12 lives from era 3 to era 5, and thread 1 has published era 4.
abbrev reading : Mem
reading = record two_nodes {
  birth_of = λ p. 3;
  death_of = λ p. 5;
  slots = λ k j. if (k == 1) && (j == 0) then 4 else 0;
}

can_remove_node-own_row_example :
    exec bump (can_remove_node 12 0) reading
    ≡ ok (not (row_holds (reading.slots 0) slots_per_thread 0 3 5)) reading
can_remove_node-own_row_example = can_remove_node-own_row bump reading 12 refl 0 refl

-- Thread 0 retires node 12 at era 5, and thread 1 has published era 4 of its lifetime.
abbrev retiring : Mem
retiring = record reading { clock_word = 5 }

get_protected-retire_node_example :
    Returns
      (λ r m'.
        (m'.live ≡ remove 12 retiring.live)
        × (era_holds (m'.slots 1 0) (m'.birth_of 12) (m'.death_of 12) ≡ true))
      (exec bump (get_protected 2 0 top 1 >>= λ p. retire_node 2 p 0) retiring)
get_protected-retire_node_example =
    get_protected-retire_node bump 0 0 0 1 0 retiring (omega arith) (omega arith) refl refl
      (omega arith) (omega arith) refl refl (λ i. refl) (omega arith) (omega arith)

retire_node-Settled_example :
    Returns
      (λ r m'. Settled (row_holds (retiring.slots 0) slots_per_thread 0 3 5) 12 0 retiring m')
      (exec bump (retire_node 2 12 0) retiring)
retire_node-Settled_example =
    retire_node-Settled bump 0 12 0 retiring (omega arith) refl (omega arith) refl refl

get_protected-ProtectedInEra_example :
    Guarded (PublishesEra 0 top 1) (get_protected 9 0 top 1) [] (λ p h. ProtectedInEra 0 top 1 p h)
get_protected-ProtectedInEra_example = get_protected-ProtectedInEra 0 top 1 9
