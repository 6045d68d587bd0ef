-- ===== src/HazardPointer/Reclaim.antt =====
-- hazardpointer.hpp: `retireNode` with no other thread in between.
use smr_implementations.Prelude.{
  List, [], arith, count, false, has, incr, length, length-append, le→ltb, ltb, lt→ltb, true, ℕ,
  ◌++◌, ◌+◌, ◌<◌, ◌∷◌, ◌≡◌, ◌≤◌,
}
use smr_implementations.Machine.{Mem, max_threads, read, retired_count, update, valid, write}
use smr_implementations.Machine.Exec.{Returns, exec}
use smr_implementations.Machine.Steps.{false-step, load-step, push_back-step, size-step, store-step}
use smr_implementations.HazardPointer.Manager.{retire_node}
use smr_implementations.HazardPointer.Held.{thread_holds}
use smr_implementations.HazardPointer.Sweep.{Swept, survivors, sweep_run}

-- The memory after `retireNode` has put a node on the retired list.
abbrev pub pushed : (p thread : ℕ) → Mem → Mem
pushed p thread m = record m {
  retired = update m.retired thread (m.retired thread ++ p ∷ []);
  retired_counts = update m.retired_counts thread (incr (m.retired_counts thread));
}

-- What `retireNode` needs: slots for every registered thread, and that the retired nodes are
-- allocated, distinct and not null, the new one included.
pub record CanRetire (n p thread : ℕ) (m : Mem) : Type 0 where
  pub registered : thread < max_threads
  pub row : (k : ℕ) → k < n → m.rows k ≡ true
  pub owned : (q : ℕ) → count q (m.retired thread ++ p ∷ []) ≤ count q m.live
  pub ne_null : has 0 (m.retired thread ++ p ∷ []) ≡ false

-- Run alone, with fuel for one round more than there are retired nodes, `retireNode` ends; of the
-- thread's retired nodes and the new one it keeps the survivors of the loop and deletes the others.
pub retire_node-Swept :
    (allocator : List ℕ → ℕ) (fuel n p thread : ℕ) (m : Mem)
    → CanRetire n p thread m
    → length (m.retired thread) + 1 < fuel
    → Returns
        (λ _.
          Swept thread
            (pushed p thread m)
            (survivors (thread_holds m.slots n 0) (m.retired thread ++ p ∷ [])))
        (exec allocator (retire_node fuel n p thread) m)
unfolding retire_node exec valid read write
retire_node-Swept allocator fuel n p thread m can enough =
    let registered : ltb thread max_threads ≡ true = lt→ltb thread max_threads can.registered in
    let first = m.retired thread in
    let listed : (pushed p thread m).retired thread ≡ first ++ p ∷ [] = ground arith in
    rw (load-step allocator _ m (retired_count thread) registered) (
      rw
        (store-step allocator _ m (retired_count thread) (incr (m.retired_counts thread))
          registered)
        (rw
          (push_back-step allocator _
            (record m { retired_counts = (pushed p thread m).retired_counts }) thread p registered)
          (rw (size-step allocator _ (pushed p thread m) thread registered) (
            rw
              (false-step allocator _ _ (pushed p thread m) _
                (le→ltb (length ((pushed p thread m).retired thread)) 0 (omega arith)))
              (sweep_run allocator thread registered (first ++ p ∷ []) [] fuel n (pushed p thread m)
                can.row listed (omega (arith, length-append first (p ∷ []))) can.owned
                can.ne_null)))))
