-- ===== src/HazardPointer/ListContains.antt =====
-- LinkedListHazardPointer.hpp: `contains` with no other thread in between.
use smr_implementations.Prelude.{
  Bool, Bool-cases, List, [], arith, false, inl, inr, length, ltb, refl, suc, true, zero, ℕ, ◌&&◌,
  ◌++◌, ◌<◌, ◌∙◌, ◌∷◌, ◌≡◌, ◌≢◌,
}
use smr_implementations.Machine.{
  Loc, Mem, Prog, head, next, read, ret, slot, slots_per_thread, update2, valid, write, ◌>>=◌,
}
use smr_implementations.Machine.Exec.{Returns, Returns-bind, exec, mono, returns}
use smr_implementations.Machine.Steps.{load-step, ret-step, store-step}
use smr_implementations.HazardPointer.Manager.{store_hazard_ptr}
use smr_implementations.HazardPointer.LinkedList.{
  Found, contains, find, find_from, get_unmarked, walk,
}
use smr_implementations.HazardPointer.ListSearch.{
  CanSearch, Chain, IsNode, Points, search, walk_end, walk_on, walk_stop,
}

module _ (allocator : List ℕ → ℕ) (less same : ℕ → ℕ → Bool) where
  -- The walk finds what `search` does, and writes slots only.
  abbrev pub Searched : (found : Bool) → Mem → Bool → Mem → Type 0
  Searched b m found m' = (found ≡ b) × (s : ℕ → ℕ → ℕ) × (m' ≡ record m { slots = s })

  walk_run :
      (cs : List ℕ) (steps n x c succ thread : ℕ) (restart : ℕ → Prog Found) (pred : Loc) (m : Mem)
      → CanSearch thread m
      → Points m pred c
      → Chain m.live m.next_of m.item_of m.tail_word c cs
      → length cs < steps
      → Returns
          (λ f m'. Searched (search less same m.item_of x cs) m f.found m')
          (exec allocator (walk less same steps n restart x pred c succ thread) m)
  unfolding valid read
  walk_run cs zero n x c succ thread restart pred m can points chain enough = absurd (omega arith)
  walk_run [] (suc steps) n x c succ thread restart pred m can points chain enough =
      rw
        (walk_end allocator less same steps n x c succ thread restart pred m can (rw chain can.end)
          (rw chain can.loop))
        (returns (refl, _, refl))
  walk_run (d ∷ []) (suc steps) n x c succ thread restart pred m can points (e, node, _, _, last)
        enough =
      rw
        (walk_end allocator less same steps n x c succ thread restart pred m can (rw e node)
          (rw e last))
        (returns (refl, _, refl))
  walk_run (d ∷ d' ∷ cs) (suc steps) n x c succ thread restart pred m can points
        (e, node, _, some_item, rest) enough =
      let (e', node', inner', _, _) = rest in
      let linked : IsNode m.live (m.next_of d) = rw e' node' in
      let inner : m.next_of d ≢ m.tail_word = rw e' inner' in
      elim (Bool-cases (less (m.item_of d) x)) [
        | inl small ↦ rw e (
            rw
              (walk_on allocator less same steps n x d succ thread restart pred m can node some_item
                linked inner (rw e at points) small)
              (rw small (
                walk_run (d' ∷ cs) steps n x (m.next_of d) (m.next_of d) thread restart (next d)
                  (record m {
                    slots =
                        update2
                          (update2 (update2 m.slots thread 0 (get_unmarked (m.next_of d))) thread 2
                            (get_unmarked d))
                          thread 1 (get_unmarked (m.next_of d));
                  })
                  (record { row = can.row; end = can.end; loop = can.loop }) (λ s. (node.2, refl))
                  rest (omega arith))))
        | inr large ↦ rw e (
            rw
              (walk_stop allocator less same steps n x d succ thread restart pred m can node
                some_item linked inner (rw e at points) large)
              (rw large (returns (refl, _, refl))))
      ]

  -- Run alone on a chain of unmarked nodes, with a step for each node and one more, `contains` ends;
  -- it returns what the search through all nodes but the last gives, and writes slots only.
  pub contains-search :
      (cs : List ℕ) (rounds steps n x unset thread : ℕ) (m : Mem)
      → CanSearch thread m
      → Chain m.live m.next_of m.item_of m.tail_word m.head_word cs
      → length cs < steps
      → Returns
          (λ found m'. Searched (search less same m.item_of x cs) m found m')
          (exec allocator (contains less same (suc rounds) steps n x unset thread) m)
  unfolding contains find find_from store_hazard_ptr valid read write
  contains-search cs rounds steps n x unset thread m can chain enough =
      let slot_ok : (m.rows thread && ltb 1 slots_per_thread) ≡ true = rw (can.row) refl in
      let m1 : Mem = record m { slots = update2 m.slots thread 1 m.head_word } in
      let walking : Prog Found =
        walk less same steps n (λ s. find_from less same rounds steps n x s thread) x head
          m.head_word unset thread in
      let start : exec allocator (contains less same (suc rounds) steps n x unset thread) m
          ≡ exec allocator (walking >>= λ f. ret f.found) m1 =
        load-step allocator _ m head refl
        ∙ store-step allocator _ m (slot thread 1) m.head_word slot_ok in
      rw start (
        Returns-bind allocator walking (λ f. ret f.found) m1 _ _
          (walk_run cs steps n x m.head_word unset thread _ head m1
            (record { row = can.row; end = can.end; loop = can.loop }) (λ s. (refl, refl)) chain
            enough)
          (λ f m' done. rw (ret-step allocator f.found m') (returns done)))

  abbrev pub AllLess : (item_of : ℕ → ℕ) → (x : ℕ) → List ℕ → Type 0
  AllLess item_of x [] = Unit {0}
  AllLess item_of x (c ∷ cs) = (less (item_of c) x ≡ true) × AllLess item_of x cs

  search-last :
      (item_of : ℕ → ℕ) (x d : ℕ) (cs : List ℕ)
      → AllLess item_of x cs
      → search less same item_of x (cs ++ d ∷ []) ≡ false
  search-last item_of x d [] small = refl
  search-last item_of x d (c ∷ []) small = rw (small.0) refl
  search-last item_of x d (c ∷ c' ∷ cs) small =
      rw (small.0) (search-last item_of x d (c' ∷ cs) small.1)

  -- Run alone, `contains` of an item that is larger than the items of all nodes but the last returns
  -- false, also where the last node holds it.
  pub contains-misses_last :
      (cs : List ℕ) (d rounds steps n x unset thread : ℕ) (m : Mem)
      → CanSearch thread m
      → Chain m.live m.next_of m.item_of m.tail_word m.head_word (cs ++ d ∷ [])
      → AllLess m.item_of x cs
      → length (cs ++ d ∷ []) < steps
      → Returns
          (λ found m'. found ≡ false)
          (exec allocator (contains less same (suc rounds) steps n x unset thread) m)
  contains-misses_last cs d rounds steps n x unset thread m can chain small enough =
      mono (contains-search (cs ++ d ∷ []) rounds steps n x unset thread m can chain enough)
        λ found m' done. done.0 ∙ search-last m.item_of x d cs small
