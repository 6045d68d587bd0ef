-- ===== src/HazardPointer/StackPop.antt =====
-- StackHazardPointer.hpp: `pop` with no other thread in between.
use smr_implementations.Prelude.{
  ==_refl, List, [], ap, arith, count, false, has, has_head, length, ltb, refl, some, suc, true, ℕ,
  ◌&&◌, ◌++◌, ◌+◌, ◌<◌, ◌==◌, ◌∙◌, ◌∷◌, ◌≡◌, ◌≢◌,
}
use smr_implementations.Machine.{
  Mem, item, next, read, ret, slot, slots_per_thread, top, update2, valid, write, ◌>>=◌, ◌>>◌,
}
use smr_implementations.Machine.Exec.{Returns, Returns-bind, exec, exec-then, mono, ok, returns}
use smr_implementations.Machine.Steps.{
  cas-step, false-step, load-step, ret-step, store-step, true-step,
}
use smr_implementations.HazardPointer.Manager.{clear, protect, protect_loop, retire_node}
use smr_implementations.HazardPointer.Held.{thread_holds}
use smr_implementations.HazardPointer.Sweep.{Swept, survivors}
use smr_implementations.HazardPointer.Reclaim.{CanRetire, pushed, retire_node-Swept}
use smr_implementations.HazardPointer.StackLaws.{
  clear-cleared, cleared, push-pushed_node, pushed_node,
}
use smr_implementations.HazardPointer.Stack.{pop, pop_loop, pop_node, push}

-- The memory with the top node in the thread's slot 0, and then with that node taken off.
abbrev pub guarding : (thread : ℕ) → Mem → Mem
guarding thread m = record m { slots = update2 m.slots thread 0 m.top_word }

abbrev pub taken : (thread : ℕ) → Mem → Mem
taken thread m = record (guarding thread m) { top_word = m.next_of m.top_word }

-- What `pop` has done when it returns `r` with the memory `m'`.
pub record Popped (n thread : ℕ) (m : Mem) (r : ℕ) (m' : Mem) : Type 0 where
  pub result : r ≡ m.item_of m.top_word
  pub new_top : m'.top_word ≡ m.next_of m.top_word
  pub links : m'.next_of ≡ m.next_of
  pub kept :
      m'.retired thread
      ≡ survivors (thread_holds (guarding thread m).slots n 0) (m.retired thread ++ m.top_word ∷ [])
  pub conserved :
      (q : ℕ)
      → count q m'.live + count q (m.retired thread ++ m.top_word ∷ [])
        ≡ count q m.live + count q (m'.retired thread)
  pub emptied : (j : ℕ) → j < slots_per_thread → m'.slots thread j ≡ 0

module _ (allocator : List ℕ → ℕ) (thread : ℕ) (m : Mem) (row : m.rows thread ≡ true) where
  protect_run :
      (spins : ℕ)
      → m.top_word ≢ 0
      → exec allocator (protect (suc (suc spins)) 0 top thread) m
        ≡ ok m.top_word (guarding thread m)
  unfolding protect protect_loop valid read write
  protect_run spins ne =
      let t = m.top_word in
      let slot_ok : (m.rows thread && ltb 0 slots_per_thread) ≡ true = rw row in
      let not_null : (t == 0) ≡ false = ground arith in
      load-step allocator _ m top refl
      ∙ false-step allocator _ _ m (t == 0) not_null
      ∙ store-step allocator _ m (slot thread 0) t slot_ok
      ∙ load-step allocator _ (guarding thread m) top refl
      ∙ true-step allocator _ _ (guarding thread m) (t == t) (==_refl t)
      ∙ ret-step allocator t (guarding thread m)

  pop_loop_run :
      (fuel spins : ℕ)
      → m.top_word ≢ 0
      → has m.top_word m.live ≡ true
      → exec allocator (pop_loop (suc fuel) (suc (suc spins)) thread) m
        ≡ ok (some m.top_word) (taken thread m)
  unfolding pop_loop valid read write
  pop_loop_run fuel spins ne alive =
      let t = m.top_word in
      let g : Mem = guarding thread m in
      let not_null : (t == 0) ≡ false = ground arith in
      exec-then allocator (protect (suc (suc spins)) 0 top thread) _ m (protect_run spins ne)
      ∙ false-step allocator _ _ g (t == 0) not_null
      ∙ load-step allocator _ g top refl
      ∙ true-step allocator _ _ g (t == t) (==_refl t)
      ∙ load-step allocator _ g (next t) alive
      ∙ cas-step allocator _ g top t (m.next_of t) refl refl
      ∙ true-step allocator _ _ (taken thread m) (t == t) (==_refl t)
      ∙ ret-step allocator (some t) (taken thread m)

  -- Run alone on a stack with a node on top, `pop` returns what that node's item field holds, makes
  -- the next node the top, retires the node and empties the thread's slots.
  pub pop-Popped :
      (fuel spins n : ℕ)
      → m.top_word ≢ 0
      → has m.top_word m.live ≡ true
      → CanRetire n m.top_word thread m
      → length (m.retired thread) + 1 < suc fuel
      → Returns (Popped n thread m) (exec allocator (pop (suc fuel) (suc (suc spins)) n thread) m)
  unfolding pop pop_node valid read
  pop-Popped fuel spins n ne alive can enough =
      let t = m.top_word in
      rw
        (exec-then allocator (pop_loop (suc fuel) (suc (suc spins)) thread)
          (pop_node (suc fuel) n thread) m (pop_loop_run fuel spins ne alive))
        (rw (load-step allocator _ (taken thread m) (item t) alive) (
          Returns-bind allocator (retire_node (suc fuel) n t thread) _ (taken thread m) _ _
            (retire_node-Swept allocator (suc fuel) n t thread (taken thread m)
              (record {
                registered = can.registered;
                row = can.row;
                owned = can.owned;
                ne_null = can.ne_null;
              })
              enough)
            (λ _ mid s. finished mid s)))
    where
      finished :
          (mid : Mem)
          → Swept thread
              (pushed m.top_word thread (taken thread m))
              (survivors
                (thread_holds (guarding thread m).slots n 0)
                (m.retired thread ++ m.top_word ∷ []))
              mid
          → Returns
              (Popped n thread m)
              (exec allocator (clear thread >> ret (m.item_of m.top_word)) mid)
      finished mid s =
          let row_mid : mid.rows thread ≡ true = ap (λ (x : Mem). x.rows thread) s.frame ∙ row in
          let kept_list = ap (λ (x : Mem). x.retired thread) s.frame in
          rw
            (exec-then allocator (clear thread) (λ _. ret (m.item_of m.top_word)) mid
              (clear-cleared allocator thread mid row_mid))
            (rw (ret-step allocator (m.item_of m.top_word) (cleared thread mid)) (
              returns (record {
                result = refl;
                new_top = ap (λ (x : Mem). x.top_word) s.frame;
                links = ap (λ (x : Mem). x.next_of) s.frame;
                kept = ground (arith, kept_list);
                conserved = λ q. ground (arith, kept_list, s.conserved q);
                emptied = ground arith;
              })))

-- Run alone, a `push` followed by a `pop` of the same thread returns what the raw memory of the new
-- node held, whatever the item was, and the old top is the top again.
pub pop-push :
    (allocator : List ℕ → ℕ) (fuel spins n x thread : ℕ) (m : Mem)
    → m.rows thread ≡ true
    → x ≢ 0
    → allocator m.live ≢ 0
    → CanRetire n (allocator m.live) thread (pushed_node (allocator m.live) thread m)
    → length (m.retired thread) + 1 < suc fuel
    → Returns
        (λ r m'. (r ≡ m.item_of (allocator m.live)) × (m'.top_word ≡ m.top_word))
        (exec allocator
          (push (suc fuel) x thread >>= λ _. pop (suc fuel) (suc (suc spins)) n thread)
          m)
pop-push allocator fuel spins n x thread m row ne fresh can enough =
    let p = allocator m.live in
    rw
      (exec-then allocator (push (suc fuel) x thread)
        (λ _. pop (suc fuel) (suc (suc spins)) n thread) m
        (push-pushed_node allocator fuel x thread m row ne))
      (mono
        (pop-Popped allocator thread (pushed_node p thread m) row fuel spins n fresh
          (has_head p m.live) can enough)
        λ r m' popped. (popped.result, popped.new_top ∙ ground arith))
