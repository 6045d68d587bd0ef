-- ===== src/Urcu/ListAlone.antt =====
-- LinkedListURCU.hpp: `contains` and `add` with no other thread in between.
use smr_implementations.Prelude.{
  ==_refl, Bool, List, [], ap, arith, count, false, has, has_head, length, map, refl, remove, suc,
  sym, true, ℕ, ◌<◌, ◌==◌, ◌∙◌, ◌∷◌, ◌≡◌, ◌≢◌,
}
use smr_implementations.Machine.{Mem, head, item, next, read, ret, update, valid, write, ◌>>=◌}
use smr_implementations.Machine.Exec.{exec, exec-then, ok}
use smr_implementations.Machine.Steps.{
  alloc-step, cas-step, false-step, free-step, ret-step, store-step, true-step,
}
use smr_implementations.Benchmark.Sets.{member}
use smr_implementations.Urcu.Manager.{read_lock, read_unlock}
use smr_implementations.Urcu.EmptyDequeue.{read_lock-reading, reading}
use smr_implementations.Urcu.Alone.{read_unlock-unlocked, unlocked}
use smr_implementations.Urcu.LinkedList.{
  add, add_loop, contains, delete_retired, find, get_unmarked, new_node,
}
use smr_implementations.Urcu.ListFind.{find_run, head_or, hit, others, outcome, pred_after}
use smr_implementations.Urcu.ListLinks.{replaced, write-relinked}
use smr_implementations.Urcu.ListSet.{HasKeys, HasKeys-IsRoute}
use smr_implementations.Urcu.ListChange.{
  behind, curr_even, front, hit-member, pred-read, pred-valid,
}

pub length-map : (f : ℕ → ℕ) (xs : List ℕ) → length (map f xs) ≡ length xs
length-map f [] = refl
length-map f (x ∷ xs) = ap suc (length-map f xs)

module _ (allocator : List ℕ → ℕ) (less same : ℕ → ℕ → Bool) (rounds steps spins n x unset : ℕ)
    (xs : List ℕ) (thread : ℕ) where
  -- `find` on the keys `xs`.
  pub find_keys :
      (retired : List ℕ) (m : Mem) (s : HasKeys xs m)
      → length xs < steps
      → exec allocator (find less same (suc rounds) steps x unset retired thread) m
        ≡ ok (outcome less same m.item_of x m.next_of head s.first s.nodes retired) m
  find_keys retired m s enough =
      let (start, route) = HasKeys-IsRoute xs m s in
      let long : length s.nodes < steps =
        omega (arith, length-map m.item_of s.nodes, ap length s.contents, enough) in
      find_run allocator less same x s.first retired thread m s.nodes rounds steps unset start route
        long

  pub found-member :
      (m : Mem) (s : HasKeys xs m)
      → hit less same m.item_of x (others less same m.item_of x s.nodes) ≡ member less same x xs
  found-member m s = hit-member less same m.item_of x s.nodes ∙ ap (member less same x) s.contents

  module _ (m : Mem) (registered : thread < m.num_reserved) (enough : length xs < steps) where
    pub contains_run :
        HasKeys xs (reading thread m)
        → exec allocator (contains less same (suc rounds) steps spins n x unset thread) m
          ≡ ok (member less same x xs) (unlocked thread (reading thread m))
    unfolding contains delete_retired
    contains_run s =
        exec-then allocator (read_lock thread) _ m (read_lock-reading allocator thread m registered)
        ∙ exec-then allocator (find less same (suc rounds) steps x unset [] thread) _ _
            (find_keys [] (reading thread m) s enough)
        ∙ exec-then allocator (read_unlock thread) _ _
            (read_unlock-unlocked allocator thread (reading thread m) registered)
        ∙ ret-step allocator _ _
        ∙ ap (λ b. ok b (unlocked thread (reading thread m))) (found-member (reading thread m) s)

    -- The memory when `add` calls `find`.
    abbrev pub prepared : Mem
    prepared = reading thread (record m {
      live = allocator m.live ∷ m.live;
      item_of = update m.item_of (allocator m.live) x;
      next_of = update m.next_of (allocator m.live) 0;
    })

    add_prepared :
        exec allocator (add less same (suc (suc rounds)) steps spins n x unset thread) m
        ≡ exec allocator
            (add_loop less same
              (suc (suc rounds))
              steps
              spins
              n
              x
              unset
              (allocator m.live)
              []
              thread)
            prepared
    unfolding add new_node valid write
    add_prepared =
        let p = allocator m.live in
        let own : has p (p ∷ m.live) ≡ true = has_head p m.live in
        alloc-step allocator _ m
        ∙ store-step allocator _ _ (item p) x own
        ∙ store-step allocator _ _ (next p) 0 own
        ∙ exec-then allocator (read_lock thread) _ _
            (read_lock-reading allocator thread _ registered)

    -- A key that is there: the new node is deleted.
    pub add_found :
        HasKeys xs prepared
        → member less same x xs ≡ true
        → allocator m.live ≢ 0
        → exec allocator (add less same (suc (suc rounds)) steps spins n x unset thread) m
          ≡ ok false
              (unlocked thread (record prepared { live = remove (allocator m.live) prepared.live }))
    unfolding add_loop delete_retired
    add_found s old some_p =
        let p = allocator m.live in
        add_prepared
        ∙ exec-then allocator (find less same (suc rounds) steps x unset [] thread) _ _
            (find_keys [] prepared s enough)
        ∙ true-step allocator _ _ prepared _ (found-member prepared s ∙ old)
        ∙ free-step allocator _ prepared p some_p (has_head p m.live)
        ∙ exec-then allocator (read_unlock thread) _ _
            (read_unlock-unlocked allocator thread _ registered)
        ∙ ret-step allocator false _

    -- A key that is not: the new node is linked.
    pub add_new :
        (s : HasKeys xs prepared)
        → member less same x xs ≡ false
        → count (allocator m.live) (front less same x xs prepared s) ≡ 0
        → exec allocator (add less same (suc (suc rounds)) steps spins n x unset thread) m
          ≡ ok true (
              unlocked thread (
                replaced
                  (front less same x xs prepared s)
                  (allocator m.live)
                  (head_or (behind less same x xs prepared s) s.first)
                  (allocator m.live)
                  prepared))
    unfolding add_loop delete_retired valid write
    add_new s new out =
        let p = allocator m.live in
        let fs = front less same x xs prepared s in
        let bs = behind less same x xs prepared s in
        let curr = head_or bs s.first in
        let m3 : Mem = record prepared { next_of = update prepared.next_of p curr } in
        let own : has p (p ∷ m.live) ≡ true = has_head p m.live in
        let even : get_unmarked curr ≡ curr = curr_even less same x xs prepared s in
        let there : valid m3 (pred_after head fs) ≡ true =
          pred-valid less same x xs prepared s m3.next_of in
        let points : read m3 (pred_after head fs) ≡ curr =
          pred-read less same x xs prepared s p curr out in
        add_prepared
        ∙ exec-then allocator (find less same (suc rounds) steps x unset [] thread) _ _
            (find_keys [] prepared s enough)
        ∙ false-step allocator _ _ prepared _ (found-member prepared s ∙ new)
        ∙ store-step allocator _ prepared (next p) curr own
        ∙ cas-step allocator _ m3 (pred_after head fs) (get_unmarked curr) p there
            (points ∙ sym even)
        ∙ true-step allocator _ _ _ (get_unmarked curr == get_unmarked curr)
            (==_refl (get_unmarked curr))
        ∙ ap (λ m'. exec allocator (read_unlock thread >>= λ u. ret true) m')
            (write-relinked fs p m3)
        ∙ exec-then allocator (read_unlock thread) _ _
            (read_unlock-unlocked allocator thread _ registered)
        ∙ ret-step allocator true _
