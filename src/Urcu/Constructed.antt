-- ===== src/Urcu/Constructed.antt =====
-- The constructors of QueueURCU.hpp, StackURCU.hpp and LinkedListURCU.hpp, run alone, up
-- to the loop over their counters.
use smr_implementations.Prelude.{
  List, arith, has, has_head, lt→ltb, refl, suc, true, zero, ℕ, ◌+◌, ◌<◌, ◌∙◌, ◌∷◌, ◌≡◌, ◌≤◌,
}
use smr_implementations.Machine.{
  Mem, Prog, ask, for_loop, head, item, load, max_threads, next, perform, read, reservation,
  retired_count, run, store, tail, top, update, valid, write, ◌>>=◌, ◌>>◌,
}
use smr_implementations.Machine.Exec.{exec, exec-then, ok}
use smr_implementations.Machine.Steps.{alloc-step, load-step, store-step}
use smr_implementations.Urcu.Manager.{unassigned}
use smr_implementations.Urcu.Manager
use smr_implementations.Urcu.Queue
use smr_implementations.Urcu.Stack
use smr_implementations.Urcu.LinkedList

-- The loop that both end with.
abbrev pub counters : (rounds i : ℕ) → Prog (Unit {0})
counters rounds i = for_loop rounds i λ j. run (store (retired_count j) 0)

-- The memory after a manager for `n` threads and a sentinel at `p` have been made.
abbrev pub made : (n p : ℕ) → (reserved : ℕ → ℕ) → Mem → Mem
made n p reserved m = record m {
  clock_word = 0;
  num_reserved = n;
  reserved = reserved;
  live = p ∷ m.live;
  item_of = update m.item_of p 0;
  next_of = update m.next_of p 0;
}

module _ (allocator : List ℕ → ℕ) where
  readers_run :
      (rounds i : ℕ) (m : Mem)
      → rounds + i ≤ m.num_reserved
      → ((k : ℕ) → k < i → unassigned ≤ m.reserved k)
      → (r : ℕ → ℕ) × (exec allocator
            (for_loop rounds i λ j. run (store (reservation j) unassigned))
            m
          ≡ ok tt (record m { reserved = r }))
        × ((k : ℕ) → k < rounds + i → unassigned ≤ r k)
  unfolding for_loop exec perform valid write
  readers_run zero i m h before = (m.reserved, refl, λ k lt. before k (omega arith))
  readers_run (suc rounds) i m h before =
      let (r, e, all) =
        readers_run rounds (i + 1) (record m { reserved = update m.reserved i unassigned })
          (omega arith) (λ k lt. ground (arith, before k)) in
      (r, rw (lt→ltb i m.num_reserved (omega arith)) e, λ k lt. all k (omega arith))

  manager_run :
      (n : ℕ) (m : Mem)
      → (r : ℕ → ℕ) × (exec allocator (Manager.construct n) m
          ≡ ok tt (record m { clock_word = 0; num_reserved = n; reserved = r }))
        × ((k : ℕ) → k < n → unassigned ≤ r k)
  unfolding Manager.construct exec perform valid write
  manager_run n m =
      let (r, e, all) =
        readers_run n 0 (record m { clock_word = 0; num_reserved = n }) (omega arith)
          (λ k lt. absurd (omega arith)) in
      (r, e, λ k lt. all k (omega arith))

  -- The loop sets counters only.
  pub counters_run :
      (rounds i : ℕ) (m : Mem)
      → rounds + i ≤ max_threads
      → (c : ℕ → ℕ) × (exec allocator (counters rounds i) m
          ≡ ok tt (record m { retired_counts = c }))
  unfolding for_loop exec perform valid write
  counters_run zero i m h = (m.retired_counts, refl)
  counters_run (suc rounds) i m h =
      let (c, e) =
        counters_run rounds (i + 1) (record m { retired_counts = update m.retired_counts i 0 })
          (omega arith) in
      (c, rw (lt→ltb i max_threads (omega arith)) e)

  pub queue_counters :
      (n : ℕ) (m : Mem)
      → let p = allocator m.live in
        (r : ℕ → ℕ) × (exec allocator (Queue.construct n) m
          ≡ exec allocator (counters n 0) (record (made n p r m) { head_word = p; tail_word = p }))
        × ((k : ℕ) → k < n → unassigned ≤ r k)
  unfolding Queue.construct Queue.new_node valid write
  queue_counters n m =
      let (r, e, all) = manager_run n m in
      let p = allocator m.live in
      let own : has p (p ∷ m.live) ≡ true = has_head p m.live in
      (
        r,
        exec-then allocator (Manager.construct n) _ m e
            ∙ alloc-step allocator _ _
            ∙ store-step allocator _ _ (item p) 0 own
            ∙ store-step allocator _ _ (next p) 0 own
            ∙ store-step allocator _ _ head p refl
            ∙ store-step allocator _ _ tail p refl,
        all,
      )

  pub stack_counters :
      (n : ℕ) (m : Mem)
      → let p = allocator m.live in
        (r : ℕ → ℕ) × (exec allocator (Stack.construct n) m
          ≡ exec allocator (counters n 0) (record (made n p r m) { top_word = p }))
        × ((k : ℕ) → k < n → unassigned ≤ r k)
  unfolding Stack.construct Stack.new_node valid write
  stack_counters n m =
      let (r, e, all) = manager_run n m in
      let p = allocator m.live in
      let own : has p (p ∷ m.live) ≡ true = has_head p m.live in
      (
        r,
        exec-then allocator (Manager.construct n) _ m e
            ∙ alloc-step allocator _ _
            ∙ store-step allocator _ _ (item p) 0 own
            ∙ store-step allocator _ _ (next p) 0 own
            ∙ store-step allocator _ _ top p refl,
        all,
      )

  -- The linked list makes two nodes, and links the first to the second.
  second_run :
      (n : ℕ) (m : Mem)
      → has m.head_word m.live ≡ true
      → let q = allocator m.live in
        exec allocator
          (do
            last ← LinkedList.new_node 0
            run (store tail last)
            h ← ask (load head)
            t ← ask (load tail)
            run (store (next h) t)
            counters n 0)
          m
        ≡ exec allocator (counters n 0) (record m {
          tail_word = q;
          live = q ∷ m.live;
          item_of = update m.item_of q 0;
          next_of = update (update m.next_of q 0) m.head_word q;
        })
  unfolding LinkedList.new_node valid read write
  second_run n m alive =
      let q = allocator m.live in
      let own : has q (q ∷ m.live) ≡ true = has_head q m.live in
      let still : has m.head_word (q ∷ m.live) ≡ true = ground (arith, alive) in
      alloc-step allocator _ m
      ∙ store-step allocator _ _ (item q) 0 own
      ∙ store-step allocator _ _ (next q) 0 own
      ∙ store-step allocator _ _ tail q refl
      ∙ load-step allocator _ _ head refl
      ∙ load-step allocator _ _ tail refl
      ∙ store-step allocator _ _ (next m.head_word) q still

  pub list_counters :
      (n : ℕ) (m : Mem)
      → let p = allocator m.live in
        let q = allocator (p ∷ m.live) in
        (r : ℕ → ℕ) × (exec allocator (LinkedList.construct n) m
          ≡ exec allocator (counters n 0) (record (made n p r m) {
            head_word = p;
            tail_word = q;
            live = q ∷ p ∷ m.live;
            item_of = update (update m.item_of p 0) q 0;
            next_of = update (update (update m.next_of p 0) q 0) p q;
          }))
        × ((k : ℕ) → k < n → unassigned ≤ r k)
  unfolding LinkedList.construct LinkedList.new_node valid write
  list_counters n m =
      let (r, e, all) = manager_run n m in
      let p = allocator m.live in
      let own : has p (p ∷ m.live) ≡ true = has_head p m.live in
      (
        r,
        exec-then allocator (Manager.construct n) _ m e
            ∙ alloc-step allocator _ _
            ∙ store-step allocator _ _ (item p) 0 own
            ∙ store-step allocator _ _ (next p) 0 own
            ∙ store-step allocator _ _ head p refl
            ∙ second_run n (record (made n p r m) { head_word = p }) own,
        all,
      )
