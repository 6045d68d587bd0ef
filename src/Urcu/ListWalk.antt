-- ===== src/Urcu/ListWalk.antt =====
-- LinkedListURCU.hpp: the rounds of the walk in `find`, with no other thread in between.
use smr_implementations.Prelude.{
  ==_refl, Bool, List, ap, arith, false, has, if◌then◌else◌, not, refl, suc, true, ℕ, ◌==◌, ◌∙◌,
  ◌≡◌, ◌≢◌,
}
use smr_implementations.Machine.{
  Loc, Mem, Prog, ask, item, load, next, read, ret, tail, valid, ◌>>=◌,
}
use smr_implementations.Machine.Exec.{exec, exec-then, ok}
use smr_implementations.Machine.Steps.{false-step, load-step, ret-step, true-step}
use smr_implementations.Urcu.LinkedList.{Found, get_unmarked, reached, walk}

-- An allocated node at an even address.
abbrev pub IsNode : (live : List ℕ) → ℕ → Type 0
IsNode live c = (c ≢ 0) × (get_unmarked c ≡ c) × (has c live ≡ true)

module _ (allocator : List ℕ → ℕ) (less same : ℕ → ℕ → Bool) (steps : ℕ)
    (restart : ℕ → List ℕ → Prog Found) (x : ℕ) (pred : Loc) (c succ : ℕ) (retired : List ℕ)
    (thread : ℕ) (m : Mem) (node : IsNode m.live c) where
  -- The node before the tail ends the walk.
  pub walk_last :
      m.next_of c ≡ m.tail_word
      → get_unmarked m.tail_word ≡ m.tail_word
      → exec allocator (walk less same (suc steps) restart x pred c succ retired thread) m
        ≡ ok
            (record { found = false; pred = pred; curr = c; succ = m.next_of c; retired = retired })
            m
  unfolding walk valid read
  walk_last last even_tail =
      let (ne, even, alive) = node in
      false-step allocator _ _ m (get_unmarked c == 0) (rw even (ground arith))
      ∙ load-step allocator _ m (next c) alive
      ∙ load-step allocator _ m tail refl
      ∙ true-step allocator _ _ m (get_unmarked (m.next_of c) == m.tail_word)
          (rw last (rw even_tail (==_refl m.tail_word)))
      ∙ ret-step allocator _ m

  reached_run :
      m.item_of c ≢ 0
      → exec allocator (reached less same (get_unmarked c) x) m ≡ ok (not (less (m.item_of c) x)) m
  unfolding reached valid read
  reached_run some_item =
      let (ne, even, alive) = node in
      rw even (
        load-step allocator _ m (item c) alive
        ∙ false-step allocator _ _ m (m.item_of c == 0) (ground arith)
        ∙ load-step allocator _ m (item c) alive
        ∙ ret-step allocator _ m)

  module _ (some_item : m.item_of c ≢ 0) (linked : get_unmarked (m.next_of c) ≡ m.next_of c)
      (inner : m.next_of c ≢ m.tail_word) (there : valid m pred ≡ true)
      (points : read m pred ≡ c) where
    -- The rest of a round, on the result of the comparison.
    abbrev compared : (stop : Bool) → Prog Found
    compared stop =
        if stop
        then (do
          i ← ask (load (item (get_unmarked c)))
          ret (record {
            found = same i x;
            pred = pred;
            curr = c;
            succ = m.next_of c;
            retired = retired;
          }))
        else walk less same steps restart x (next (get_unmarked c)) (m.next_of c) (m.next_of c)
            retired thread

    walk_round :
        exec allocator (walk less same (suc steps) restart x pred c succ retired thread) m
        ≡ exec allocator (compared (not (less (m.item_of c) x))) m
    unfolding walk valid read
    walk_round =
        let s = m.next_of c in
        let (ne, even, alive) = node in
        let u_alive : has (get_unmarked c) m.live ≡ true = rw even alive in
        false-step allocator _ _ m (get_unmarked c == 0) (rw even (ground arith))
        ∙ load-step allocator _ m (next c) alive
        ∙ load-step allocator _ m tail refl
        ∙ false-step allocator _ _ m (get_unmarked s == m.tail_word) (rw linked (ground arith))
        ∙ load-step allocator _ m (next (get_unmarked c)) u_alive
        ∙ true-step allocator _ _ m (m.next_of (get_unmarked c) == s) (rw even (==_refl s))
        ∙ load-step allocator _ m pred there
        ∙ true-step allocator _ _ m (read m pred == get_unmarked c) (rw (points, even) (==_refl c))
        ∙ true-step allocator _ _ m (get_unmarked s == s) (rw linked (==_refl s))
        ∙ exec-then allocator (reached less same (get_unmarked c) x) _ m (reached_run some_item)

    -- A node that compares at least as large as `x` ends the walk.
    pub walk_stop :
        less (m.item_of c) x ≡ false
        → exec allocator (walk less same (suc steps) restart x pred c succ retired thread) m
          ≡ ok
              (record {
                found = same (m.item_of c) x;
                pred = pred;
                curr = c;
                succ = m.next_of c;
                retired = retired;
              })
              m
    unfolding valid read
    walk_stop large =
        walk_round
        ∙ true-step allocator _ _ m (not (less (m.item_of c) x)) (rw large refl)
        ∙ load-step allocator _ m (item (get_unmarked c)) (rw (node.1) (node.2))
        ∙ ret-step allocator _ m
        ∙ ap
            (λ j.
              ok
                (record {
                  found = same (m.item_of j) x;
                  pred = pred;
                  curr = c;
                  succ = m.next_of c;
                  retired = retired;
                })
                m)
            (node.1)

    -- A smaller node is passed.
    pub walk_on :
        less (m.item_of c) x ≡ true
        → exec allocator (walk less same (suc steps) restart x pred c succ retired thread) m
          ≡ exec allocator
              (walk less same steps restart x (next c) (m.next_of c) (m.next_of c) retired thread)
              m
    walk_on small =
        walk_round
        ∙ false-step allocator _ _ m (not (less (m.item_of c) x)) (rw small refl)
        ∙ ap
            (λ j.
              exec allocator
                (walk less same steps restart x (next j) (m.next_of c) (m.next_of c) retired thread)
                m)
            (node.1)
