-- ===== src/HazardPointer/StackLaws.antt =====
-- StackHazardPointer.hpp with no other thread in between.
use smr_implementations.Prelude.{
  ==_refl, List, arith, false, fun_ext, has, has_head, if◌then◌else◌, ltb, refl, suc, true, ℕ, ◌&&◌,
  ◌==◌, ◌∙◌, ◌∷◌, ◌≡◌, ◌≢◌,
}
use smr_implementations.Machine.{
  Mem, for_loop, next, perform, read, slot, slots_per_thread, top, update, update-update, update2,
  valid, write,
}
use smr_implementations.Machine.Exec.{exec, exec-then, ok}
use smr_implementations.Machine.Steps.{
  alloc-step, cas-step, false-step, load-step, ret-step, store-step, true-step,
}
use smr_implementations.HazardPointer.Manager.{clear, store_hazard_ptr}
use smr_implementations.HazardPointer.Stack.{new_node, push, push_loop}

-- The memory with a thread's slots emptied.
abbrev pub cleared : (thread : ℕ) → Mem → Mem
cleared thread m = record m {
  slots = λ k j. if (thread == k) && ltb j slots_per_thread then 0 else m.slots k j;
}

-- The memory after a `push` whose node is `p`.
abbrev pub pushed_node : (p thread : ℕ) → Mem → Mem
pushed_node p thread m = record (cleared thread m) {
  live = p ∷ m.live;
  next_of = update m.next_of p m.top_word;
  top_word = p;
}

module _ (allocator : List ℕ → ℕ) where
  -- Run alone, `clear` empties the five slots of its thread and changes nothing else.
  pub clear-cleared :
      (thread : ℕ) (m : Mem)
      → m.rows thread ≡ true
      → exec allocator (clear thread) m ≡ ok tt (cleared thread m)
  unfolding clear for_loop exec perform valid write
  clear-cleared thread m row =
      let stored : exec allocator (clear thread) m
          ≡ ok tt (record m {
            slots =
                update2
                  (update2 (update2 (update2 (update2 m.slots thread 0 0) thread 1 0) thread 2 0)
                    thread 3 0)
                  thread 4 0;
          }) =
        ground arith in
      stored ∙ λ i. ok tt (record m { slots = fun_ext (λ k. fun_ext (λ j. five k j)) i })
    where
      five :
          (k j : ℕ)
          → update2
              (update2
                (update2 (update2 (update2 m.slots thread 0 0) thread 1 0) thread 2 0)
                thread
                3
                0)
              thread
              4
              0
              k
              j
            ≡ (cleared thread m).slots k j
      five k j = ground arith

  -- Run alone, `push` of an item that is not null allocates a node, links it above the top, empties
  -- the thread's slots and changes nothing else: no field of the memory takes the item.
  pub push-pushed_node :
      (fuel x thread : ℕ) (m : Mem)
      → m.rows thread ≡ true
      → x ≢ 0
      → exec allocator (push (suc fuel) x thread) m
        ≡ ok true (pushed_node (allocator m.live) thread m)
  unfolding push push_loop new_node store_hazard_ptr valid read write
  push-pushed_node fuel x thread m row ne =
      let p = allocator m.live in
      let own : has p (p ∷ m.live) ≡ true = has_head p m.live in
      let t = m.top_word in
      let slot_ok : (m.rows thread && ltb 0 slots_per_thread) ≡ true = rw row in
      let some_item : (x == 0) ≡ false = ground arith in
      false-step allocator _ _ m (x == 0) some_item
      ∙ alloc-step allocator _ m
      ∙ store-step allocator _ _ (next p) 0 own
      ∙ load-step allocator _ _ top refl
      ∙ store-step allocator _ _ (slot thread 0) t slot_ok
      ∙ load-step allocator _ _ top refl
      ∙ true-step allocator _ _ _ (t == t) (==_refl t)
      ∙ store-step allocator _ _ (next p) t own
      ∙ cas-step allocator _ _ top t p refl refl
      ∙ true-step allocator _ _ _ (t == t) (==_refl t)
      ∙ exec-then allocator (clear thread) _ _ (clear-cleared thread _ row)
      ∙ ret-step allocator true _
      ∙ λ i. ok true (record (cleared thread m) {
        live = p ∷ m.live;
        next_of = update-update m.next_of p 0 t i;
        top_word = p;
        slots = fun_ext (λ k. fun_ext (λ j. same k j)) i;
      })
    where
      same :
          (k j : ℕ)
          → (if (thread == k) && ltb j slots_per_thread
              then 0
              else update2 m.slots thread 0 m.top_word k j)
            ≡ (cleared thread m).slots k j
      same k j = ground arith
