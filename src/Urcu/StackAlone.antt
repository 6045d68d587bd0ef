-- ===== src/Urcu/StackAlone.antt =====
-- StackURCU.hpp with no other thread in between.
use smr_implementations.Prelude.{
  ==_refl, List, [], arith, decr, has, has_head, incr, lt→ltb, none, refl, remove, some, suc, true,
  ℕ, ◌<◌, ◌==◌, ◌∙◌, ◌∷◌, ◌≡◌, ◌≢◌,
}
use smr_implementations.Machine.{
  Mem, item, max_threads, next, read, retired_count, top, update, valid, write,
}
use smr_implementations.Machine.Exec.{exec, exec-then, ok}
use smr_implementations.Machine.Steps.{
  alloc-step, cas-step, false-step, free-step, load-step, ret-step, store-step, true-step,
}
use smr_implementations.Urcu.Manager.{read_lock, read_unlock, synchronize_rcu, unassigned}
use smr_implementations.Urcu.Alone.{
  IsIdle, raised, read_unlock-unlocked, synchronize_rcu-raised, unlocked,
}
use smr_implementations.Urcu.EmptyDequeue.{read_lock-reading, reading}
use smr_implementations.Urcu.Stack.{
  delete_nodes, delete_retired_nodes, new_node, pop, pop_loop, pop_node, push, push_loop,
}

-- The memory after `push` has put the item into a new node `p`.
abbrev pub pushed : (p x thread : ℕ) → Mem → Mem
pushed p x thread m = record m {
  live = p ∷ m.live;
  item_of = update m.item_of p x;
  next_of = update (update m.next_of p 0) p m.top_word;
  top_word = p;
  reserved = (unlocked thread (reading thread m)).reserved;
}

-- The memory after `pop` has taken the top node off, and after it has deleted it.
abbrev pub taken : (thread : ℕ) → Mem → Mem
taken thread m = record m {
  top_word = m.next_of m.top_word;
  reserved = (unlocked thread (reading thread m)).reserved;
  retired_counts = update m.retired_counts thread (incr (m.retired_counts thread));
}

abbrev pub popped : (thread : ℕ) → Mem → Mem
popped thread m = record (raised (taken thread m)) {
  live = remove m.top_word m.live;
  retired_counts =
      update (taken thread m).retired_counts thread (decr ((taken thread m).retired_counts thread));
}

module _ (allocator : List ℕ → ℕ) (thread : ℕ) (m : Mem)
    (registered : thread < m.num_reserved) where
  -- Run alone, `push` links a new node with the item above the top.
  pub push-pushed :
      (fuel x : ℕ)
      → exec allocator (push (suc fuel) x thread) m ≡ ok true (pushed (allocator m.live) x thread m)
  unfolding push push_loop new_node valid read write
  push-pushed fuel x =
      let p = allocator m.live in
      let t = m.top_word in
      let own : has p (p ∷ m.live) ≡ true = has_head p m.live in
      let m1 : Mem = record m {
        live = p ∷ m.live;
        item_of = update m.item_of p x;
        next_of = update m.next_of p 0;
      } in
      alloc-step allocator _ m
      ∙ store-step allocator _ _ (item p) x own
      ∙ store-step allocator _ _ (next p) 0 own
      ∙ exec-then allocator (read_lock thread) _ m1
          (read_lock-reading allocator thread m1 registered)
      ∙ load-step allocator _ _ top refl
      ∙ store-step allocator _ _ (next p) t own
      ∙ cas-step allocator _ _ top t p refl refl
      ∙ true-step allocator _ _ _ (t == t) (==_refl t)
      ∙ exec-then allocator (read_unlock thread) _ _
          (read_unlock-unlocked allocator thread _ registered)
      ∙ ret-step allocator true _

  -- On a stack without a node, `pop` returns null.
  pub pop-empty :
      (fuel spins n : ℕ)
      → m.top_word ≡ 0
      → exec allocator (pop (suc fuel) spins n thread) m ≡ ok 0 (unlocked thread (reading thread m))
  unfolding pop pop_loop pop_node valid read
  pop-empty fuel spins n empty =
      exec-then allocator (pop_loop (suc fuel) thread) (pop_node spins n thread) m (
        exec-then allocator (read_lock thread) _ m (read_lock-reading allocator thread m registered)
        ∙ load-step allocator _ _ top refl
        ∙ true-step allocator _ _ _ (m.top_word == 0) (rw empty refl)
        ∙ exec-then allocator (read_unlock thread) _ _
            (read_unlock-unlocked allocator thread _ registered)
        ∙ ret-step allocator none _)
      ∙ ret-step allocator 0 _

  pop_loop_run :
      (fuel : ℕ)
      → m.top_word ≢ 0
      → has m.top_word m.live ≡ true
      → exec allocator (pop_loop (suc fuel) thread) m
        ≡ ok (some m.top_word) (record (reading thread m) { top_word = m.next_of m.top_word })
  unfolding pop_loop valid read write
  pop_loop_run fuel ne alive =
      let t = m.top_word in
      let g : Mem = reading thread m in
      exec-then allocator (read_lock thread) _ m (read_lock-reading allocator thread m registered)
      ∙ load-step allocator _ g top refl
      ∙ false-step allocator _ _ g (t == 0) (ground arith)
      ∙ load-step allocator _ g top refl
      ∙ true-step allocator _ _ g (t == t) (==_refl t)
      ∙ load-step allocator _ g (next t) alive
      ∙ cas-step allocator _ g top t (m.next_of t) refl refl
      ∙ true-step allocator _ _ _ (t == t) (==_refl t)
      ∙ ret-step allocator (some t) _

  -- Run alone with no reader, `pop` returns the item of the top node and deletes the node.
  pub pop-popped :
      (fuel spins n : ℕ)
      → m.top_word ≢ 0
      → has m.top_word m.live ≡ true
      → thread < max_threads
      → IsIdle n (taken thread m)
      → m.clock_word < unassigned
      → exec allocator (pop (suc fuel) (suc spins) n thread) m
        ≡ ok (m.item_of m.top_word) (popped thread m)
  unfolding pop pop_node delete_retired_nodes delete_nodes valid read write
  pop-popped fuel spins n ne alive counted idle early =
      let t = m.top_word in
      let in_range = lt→ltb thread max_threads counted in
      let g : Mem = record (reading thread m) { top_word = m.next_of t } in
      exec-then allocator (pop_loop (suc fuel) thread) (pop_node (suc spins) n thread) m
        (pop_loop_run fuel ne alive)
      ∙ load-step allocator _ g (item t) alive
      ∙ load-step allocator _ g (retired_count thread) in_range
      ∙ store-step allocator _ g (retired_count thread) (incr (m.retired_counts thread)) in_range
      ∙ exec-then allocator (read_unlock thread) _ _
          (read_unlock-unlocked allocator thread _ registered)
      ∙ exec-then allocator (delete_retired_nodes (suc spins) n (t ∷ []) thread) _ _ (
          exec-then allocator (synchronize_rcu (suc spins) n) _ _
            (synchronize_rcu-raised allocator spins n (taken thread m) idle early)
          ∙ free-step allocator _ _ t ne alive
          ∙ load-step allocator _ _ (retired_count thread) in_range
          ∙ store-step allocator _ _ (retired_count thread) _ in_range
          ∙ ret-step allocator tt _)
      ∙ ret-step allocator (m.item_of t) _
