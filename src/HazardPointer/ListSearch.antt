-- ===== src/HazardPointer/ListSearch.antt =====
-- LinkedListHazardPointer.hpp: the rounds of the walk in `find`, with no other thread in between.
use smr_implementations.Prelude.{
  ==_refl, Bool, List, [], ap, arith, false, has, if◌then◌else◌, ltb, not, refl, suc, true, ℕ, ◌&&◌,
  ◌==◌, ◌∙◌, ◌∷◌, ◌≡◌, ◌≢◌,
}
use smr_implementations.Machine.{
  Loc, Mem, Prog, ask, item, load, next, read, ret, slot, slots_per_thread, tail, update2, valid,
  write, ◌>>=◌,
}
use smr_implementations.Machine.Exec.{exec, exec-then, ok}
use smr_implementations.Machine.Steps.{false-step, load-step, ret-step, store-step, true-step}
use smr_implementations.HazardPointer.Manager.{store_hazard_ptr}
use smr_implementations.HazardPointer.LinkedList.{Found, get_unmarked, reached, walk}

-- An allocated node at an even address.
abbrev pub IsNode : (live : List ℕ) → ℕ → Type 0
IsNode live c = (c ≢ 0) × (get_unmarked c ≡ c) × (has c live ≡ true)

-- From `p` the links lead through the nodes `cs`, which are not marked and hold items, to the node
-- at the tail.
abbrev pub Chain : (live : List ℕ) → (next_of item_of : ℕ → ℕ) → (end p : ℕ) → List ℕ → Type 0
Chain live next_of item_of end p [] = p ≡ end
Chain live next_of item_of end p (c ∷ cs) =
    (p ≡ c)
    × IsNode live c
    × (c ≢ end)
    × (item_of c ≢ 0)
    × Chain live next_of item_of end (next_of c) cs

-- The word `pred` is there and holds `c`, whatever the slots hold.
abbrev pub Points : Mem → Loc → ℕ → Type 0
Points m pred c =
    (s : ℕ → ℕ → ℕ)
    → (valid (record m { slots = s }) pred ≡ true) × (read (record m { slots = s }) pred ≡ c)

-- What the walk looks for in the nodes before the tail. It leaves out the last of them.
abbrev pub search : (less same : ℕ → ℕ → Bool) → (item_of : ℕ → ℕ) → (x : ℕ) → List ℕ → Bool
search less same item_of x [] = false
search less same item_of x (c ∷ []) = false
search less same item_of x (c ∷ c' ∷ cs) =
    if less (item_of c) x then search less same item_of x (c' ∷ cs) else same (item_of c) x

-- What a search needs: the thread's slots, and a tail that links to itself.
pub record CanSearch (thread : ℕ) (m : Mem) : Type 0 where
  pub row : m.rows thread ≡ true
  pub end : IsNode m.live m.tail_word
  pub loop : m.next_of m.tail_word ≡ m.tail_word

module _ (allocator : List ℕ → ℕ) (less same : ℕ → ℕ → Bool) where
  -- The node after which the walk stops without comparing it.
  pub walk_end :
      (steps n x c succ thread : ℕ) (restart : ℕ → Prog Found) (pred : Loc) (m : Mem)
      → CanSearch thread m
      → IsNode m.live c
      → m.next_of c ≡ m.tail_word
      → exec allocator (walk less same (suc steps) n restart x pred c succ thread) m
        ≡ ok
            (record { found = false; pred = pred; curr = c; succ = m.next_of c })
            (record m { slots = update2 m.slots thread 0 (get_unmarked (m.next_of c)) })
  unfolding walk store_hazard_ptr valid read write
  walk_end steps n x c succ thread restart pred m can (ne, even, alive) last =
      let slot_ok : (m.rows thread && ltb 0 slots_per_thread) ≡ true = rw (can.row) refl in
      let s = m.next_of c in
      let m1 : Mem = record m { slots = update2 m.slots thread 0 (get_unmarked s) } in
      false-step allocator _ _ m (get_unmarked c == 0) (rw even (ground arith))
      ∙ load-step allocator _ m (next c) alive
      ∙ store-step allocator _ m (slot thread 0) (get_unmarked s) slot_ok
      ∙ load-step allocator _ m1 (next (get_unmarked c)) (rw even alive)
      ∙ true-step allocator _ _ m1 (m.next_of (get_unmarked c) == s) (rw even (==_refl s))
      ∙ load-step allocator _ m1 tail refl
      ∙ true-step allocator _ _ m1 (get_unmarked s == m.tail_word)
          (rw last (rw (can.end.1) (==_refl m.tail_word)))
      ∙ ret-step allocator _ m1

  reached_run :
      (c x : ℕ) (m : Mem)
      → has c m.live ≡ true
      → m.item_of c ≢ 0
      → exec allocator (reached less same c x) m ≡ ok (not (less (m.item_of c) x)) m
  unfolding reached valid read
  reached_run c x m alive some_item =
      load-step allocator _ m (item c) alive
      ∙ false-step allocator _ _ m (m.item_of c == 0) (ground arith)
      ∙ load-step allocator _ m (item c) alive
      ∙ ret-step allocator _ m

  module _ (steps n x c succ thread : ℕ) (restart : ℕ → Prog Found) (pred : Loc) (m : Mem)
      (can : CanSearch thread m) (node : IsNode m.live c) (some_item : m.item_of c ≢ 0)
      (linked : IsNode m.live (m.next_of c)) (inner : m.next_of c ≢ m.tail_word)
      (points : Points m pred c) where
    abbrev s1 : ℕ → ℕ → ℕ
    s1 = update2 m.slots thread 0 (get_unmarked (m.next_of c))

    -- The rest of a round, on the result of the comparison.
    abbrev compared : (stop : Bool) → Prog Found
    compared stop =
        if stop
        then (do
          i ← ask (load (item (get_unmarked c)))
          ret (record { found = same i x; pred = pred; curr = c; succ = m.next_of c }))
        else (store_hazard_ptr 2 (get_unmarked c) thread >>= λ _.
            store_hazard_ptr 1 (get_unmarked (m.next_of c)) thread >>= λ _.
            walk less same steps n restart x (next (get_unmarked c)) (m.next_of c) (m.next_of c)
              thread)

    walk_round :
        exec allocator (walk less same (suc steps) n restart x pred c succ thread) m
        ≡ exec allocator (compared (not (less (m.item_of c) x))) (record m { slots = s1 })
    unfolding walk store_hazard_ptr valid read write
    walk_round =
        let slot_ok : (m.rows thread && ltb 0 slots_per_thread) ≡ true = rw (can.row) refl in
        let s = m.next_of c in
        let m1 : Mem = record m { slots = s1 } in
        let (ne, even, alive) = node in
        let u_alive : has (get_unmarked c) m.live ≡ true = rw even alive in
        false-step allocator _ _ m (get_unmarked c == 0) (rw even (ground arith))
        ∙ load-step allocator _ m (next c) alive
        ∙ store-step allocator _ m (slot thread 0) (get_unmarked s) slot_ok
        ∙ load-step allocator _ m1 (next (get_unmarked c)) u_alive
        ∙ true-step allocator _ _ m1 (m.next_of (get_unmarked c) == s) (rw even (==_refl s))
        ∙ load-step allocator _ m1 tail refl
        ∙ false-step allocator _ _ m1 (get_unmarked s == m.tail_word) (rw (linked.1) (ground arith))
        ∙ load-step allocator _ m1 pred ((points s1).0)
        ∙ true-step allocator _ _ m1 (read m1 pred == get_unmarked c)
            (rw ((points s1).1, even) (==_refl c))
        ∙ true-step allocator _ _ m1 (get_unmarked s == s) (rw (linked.1) (==_refl s))
        ∙ exec-then allocator (reached less same (get_unmarked c) x) _ m1
            (reached_run (get_unmarked c) x m1 u_alive (rw even some_item))
        ∙ ap (λ j. exec allocator (compared (not (less (m.item_of j) x))) m1) even

    -- A node that compares at least as large as `x` ends the walk.
    pub walk_stop :
        less (m.item_of c) x ≡ false
        → exec allocator (walk less same (suc steps) n restart x pred c succ thread) m
          ≡ ok
              (record { found = same (m.item_of c) x; pred = pred; curr = c; succ = m.next_of c })
              (record m { slots = s1 })
    unfolding valid read
    walk_stop large =
        let m1 : Mem = record m { slots = s1 } in
        walk_round
        ∙ true-step allocator _ _ m1 (not (less (m.item_of c) x)) (rw large refl)
        ∙ load-step allocator _ m1 (item (get_unmarked c)) (rw (node.1) (node.2))
        ∙ ret-step allocator _ m1
        ∙ ap
            (λ j.
              ok
                (record { found = same (m.item_of j) x; pred = pred; curr = c; succ = m.next_of c })
                m1)
            (node.1)

    -- A smaller node is passed.
    pub walk_on :
        less (m.item_of c) x ≡ true
        → exec allocator (walk less same (suc steps) n restart x pred c succ thread) m
          ≡ exec allocator
              (walk less same steps n restart x (next c) (m.next_of c) (m.next_of c) thread)
              (record m {
                slots =
                    update2
                      (update2 s1 thread 2 (get_unmarked c))
                      thread
                      1
                      (get_unmarked (m.next_of c));
              })
    unfolding store_hazard_ptr valid write
    walk_on small =
        let slot_ok : (j : ℕ)
            → ltb j slots_per_thread ≡ true
            → (m.rows thread && ltb j slots_per_thread) ≡ true =
          λ j e. rw (can.row) e in
        let m1 : Mem = record m { slots = s1 } in
        walk_round
        ∙ false-step allocator _ _ m1 (not (less (m.item_of c) x)) (rw small refl)
        ∙ store-step allocator _ m1 (slot thread 2) (get_unmarked c) (slot_ok 2 refl)
        ∙ store-step allocator _ _ (slot thread 1) (get_unmarked (m.next_of c)) (slot_ok 1 refl)
        ∙ ap
            (λ j.
              exec allocator
                (walk less same steps n restart x (next j) (m.next_of c) (m.next_of c) thread)
                (record m {
                  slots =
                      update2 (update2 s1 thread 2 (get_unmarked c)) thread 1
                        (get_unmarked (m.next_of c));
                }))
            (node.1)
