-- ===== src/HazardPointer/Examples.antt =====
-- hazardpointer.hpp and StackHazardPointer.hpp at concrete memories.
use smr_implementations.Prelude.{[], arith, false, ltb, refl, true, ◌++◌, ◌==◌, ◌∷◌, ◌≡◌, ◌⊎◌}
use smr_implementations.Machine.{act, erase, free, ret, top, ◌>>=◌}
use smr_implementations.Machine.Exec.{Returns, exec, ok}
use smr_implementations.Machine.Sample.{bump, protecting, two_items, two_nodes}
use smr_implementations.Machine.Guarded.{Guarded}
use smr_implementations.Machine.Interfered.{Reaches}
use smr_implementations.HazardPointer.Manager.{clear, protect, retire_node}
use smr_implementations.HazardPointer.Safety.{
  FreesUnprotected, retire_node-FreesUnprotected, retire_node-never_frees_protected,
}
use smr_implementations.HazardPointer.LinkedList.{contains, get_unmarked}
use smr_implementations.HazardPointer.ListSearch.{CanSearch, Chain}
use smr_implementations.HazardPointer.ListContains.{Searched, contains-misses_last, contains-search}
use smr_implementations.HazardPointer.Protect.{Publishes, Validated, protect-Validated}
use smr_implementations.HazardPointer.Reclaim.{CanRetire, pushed, retire_node-Swept}
use smr_implementations.HazardPointer.Held.{slot_holds, thread_holds}
use smr_implementations.HazardPointer.Sweep.{Swept, survivors}
use smr_implementations.HazardPointer.StackLaws.{
  clear-cleared, cleared, push-pushed_node, pushed_node,
}
use smr_implementations.HazardPointer.StackPop.{Popped, pop-Popped, pop-push}
use smr_implementations.HazardPointer.Stack.{pop, push}

never_frees_protected_example :
    ¬ Reaches bump
      (λ m. m.slots 1 0 ≡ 12)
      (retire_node 5 2 12 0)
      (act (free 12) (λ _. ret tt))
      ((erase 0 0, 0) ∷ [])
never_frees_protected_example =
    retire_node-never_frees_protected bump 5 2 12 0 1 0 12 (λ _. ret tt) ((erase 0 0, 0) ∷ [])
      (omega arith) (omega arith)

FreesUnprotected_example : Guarded (FreesUnprotected 2) (retire_node 5 2 12 0) [] (λ _ _. Unit)
FreesUnprotected_example = retire_node-FreesUnprotected 2 5 12 0

protect-Validated_example :
    Guarded (Publishes 0 top 1) (protect 9 0 top 1) [] (λ r h. (r ≡ 0) ⊎ Validated 0 top 1 r h)
protect-Validated_example = protect-Validated 0 top 1 9

protecting-CanRetire : CanRetire 2 12 0 protecting
protecting-CanRetire = record {
  registered = omega arith;
  row = λ k lt. refl;
  owned = λ q. ground arith;
  ne_null = refl;
}

retire_node-Swept_example :
    Returns
      (λ _.
        Swept 0
          (pushed 12 0 protecting)
          (survivors (thread_holds protecting.slots 2 0) (protecting.retired 0 ++ 12 ∷ [])))
      (exec bump (retire_node 5 2 12 0) protecting)
retire_node-Swept_example =
    retire_node-Swept bump 5 2 12 0 protecting protecting-CanRetire (omega arith)

push-pushed_node_example :
    exec bump (push 1 5 0) two_nodes ≡ ok true (pushed_node (bump two_nodes.live) 0 two_nodes)
push-pushed_node_example = push-pushed_node bump 0 5 0 two_nodes refl (omega arith)

clear-cleared_example : exec bump (clear 1) protecting ≡ ok tt (cleared 1 protecting)
clear-cleared_example = clear-cleared bump 1 protecting refl

-- Of two retired nodes the one that no slot holds goes.
kept_after : survivors (thread_holds protecting.slots 2 0) (10 ∷ 12 ∷ []) ≡ 12 ∷ []
unfolding survivors thread_holds slot_holds
kept_after = refl

pop-Popped_example : Returns (Popped 2 0 two_nodes) (exec bump (pop 3 2 2 0) two_nodes)
pop-Popped_example =
    pop-Popped bump 0 two_nodes refl 2 0 2 (omega arith) refl
      (record {
        registered = omega arith;
        row = λ k lt. refl;
        owned = λ q. ground arith;
        ne_null = refl;
      })
      (omega arith)

-- The item 5 goes in, and the 77 of the raw memory comes out.
pop-push_example :
    Returns
      (λ r m'. (r ≡ 77) × (m'.top_word ≡ 12))
      (exec bump (push 3 5 0 >>= λ _. pop 3 2 2 0) two_nodes)
pop-push_example =
    pop-push bump 2 0 2 5 0 two_nodes refl (omega arith) (omega arith)
      (record {
        registered = omega arith;
        row = λ k lt. refl;
        owned = λ q. ground arith;
        ne_null = refl;
      })
      (omega arith)

two_items-CanSearch : CanSearch 0 two_items
unfolding get_unmarked
two_items-CanSearch = record { row = refl; end = (omega arith, refl, refl); loop = refl }

two_items-Chain :
    Chain two_items.live two_items.next_of two_items.item_of two_items.tail_word two_items.head_word
      (12 ∷ 10 ∷ [])
unfolding get_unmarked
two_items-Chain = (
  refl,
  (omega arith, refl, refl),
  omega arith,
  omega arith,
  (refl, (omega arith, refl, refl), omega arith, omega arith, refl),
)

-- 5 is found, and the 7 of the last node is not.
contains-search_example :
    Returns
      (λ found m'. Searched bump ltb (λ a b. a == b) true two_items found m')
      (exec bump (contains ltb (λ a b. a == b) 1 3 2 5 0 0) two_items)
contains-search_example =
    contains-search bump ltb (λ a b. a == b) (12 ∷ 10 ∷ []) 0 3 2 5 0 0 two_items
      two_items-CanSearch two_items-Chain (omega arith)

contains-misses_last_example :
    Returns
      (λ found m'. found ≡ false)
      (exec bump (contains ltb (λ a b. a == b) 1 3 2 7 0 0) two_items)
contains-misses_last_example =
    contains-misses_last bump ltb (λ a b. a == b) (12 ∷ []) 10 0 3 2 7 0 0 two_items
      two_items-CanSearch two_items-Chain (refl, tt) (omega arith)
