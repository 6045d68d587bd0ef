-- ===== src/Urcu/QueueAlone.antt =====
-- QueueURCU.hpp with no other thread in between.
use smr_implementations.Prelude.{
  ==_refl, List, [], arith, decr, has, has_head, incr, lt→ltb, refl, remove, some, suc, true, ℕ,
  ◌<◌, ◌==◌, ◌∙◌, ◌∷◌, ◌≡◌, ◌≢◌,
}
use smr_implementations.Machine.{
  Mem, head, item, max_threads, next, read, retired_count, tail, update, valid, write,
}
use smr_implementations.Machine.Exec.{exec, exec-then, ok}
use smr_implementations.Machine.Steps.{
  alloc-step, cas-step, false-step, free-step, load-step, ret-step, store-step, true-step,
}
use smr_implementations.Urcu.Manager.{read_lock, read_unlock, synchronize_rcu, unassigned}
use smr_implementations.Urcu.Alone.{
  IsIdle, raised, read_unlock-unlocked, synchronize_rcu-raised, unlocked,
}
use smr_implementations.Urcu.EmptyDequeue.{read_lock-reading, reading}
use smr_implementations.Urcu.Queue.{
  delete_nodes, delete_retired_nodes, dequeue, dequeue_loop, dequeue_node, enqueue, enqueue_loop,
  new_node,
}

-- The memory after `enqueue` has made a node `p`, after it has linked it, and after its end.
abbrev pub with_node : (p x : ℕ) → Mem → Mem
with_node p x m = record m {
  live = p ∷ m.live;
  item_of = update m.item_of p x;
  next_of = update m.next_of p 0;
}

abbrev pub linked : (p x thread : ℕ) → Mem → Mem
linked p x thread m = record (with_node p x m) {
  next_of = update (update m.next_of p 0) m.tail_word p;
  tail_word = p;
  reserved = (unlocked thread (reading thread m)).reserved;
}

abbrev pub enqueued : (p x thread : ℕ) → Mem → Mem
enqueued p x thread m = raised (linked p x thread m)

-- The memory after `dequeue` has made the next node the head, and after it has deleted the old one.
abbrev pub advanced : (thread : ℕ) → Mem → Mem
advanced thread m = record m {
  head_word = m.next_of m.head_word;
  reserved = (unlocked thread (reading thread m)).reserved;
  retired_counts = update m.retired_counts thread (incr (m.retired_counts thread));
}

abbrev pub dequeued : (thread : ℕ) → Mem → Mem
dequeued thread m = record (raised (advanced thread m)) {
  live = remove m.head_word m.live;
  retired_counts =
      update (advanced thread m).retired_counts thread
        (decr ((advanced thread m).retired_counts thread));
}

module _ (allocator : List ℕ → ℕ) (thread : ℕ) (m : Mem)
    (registered : thread < m.num_reserved) where
  enqueue_loop_run :
      (fuel p : ℕ)
      → has m.tail_word m.live ≡ true
      → m.next_of m.tail_word ≡ 0
      → exec allocator (enqueue_loop (suc fuel) p 0 thread) m
        ≡ ok m.tail_word (record (reading thread m) { next_of = update m.next_of m.tail_word p })
  unfolding enqueue_loop valid read write
  enqueue_loop_run fuel p alive last =
      let t = m.tail_word in
      let g : Mem = reading thread m in
      load-step allocator _ m tail refl
      ∙ exec-then allocator (read_lock thread) _ m (read_lock-reading allocator thread m registered)
      ∙ load-step allocator _ g tail refl
      ∙ true-step allocator _ _ g (t == t) (==_refl t)
      ∙ load-step allocator _ g (next t) alive
      ∙ load-step allocator _ g tail refl
      ∙ true-step allocator _ _ g (t == t) (==_refl t)
      ∙ true-step allocator _ _ g (m.next_of t == 0) (ground arith)
      ∙ cas-step allocator _ g (next t) 0 p alive last
      ∙ ret-step allocator t _

module _ (allocator : List ℕ → ℕ) (thread : ℕ) (m : Mem)
    (registered : thread < m.num_reserved) where
  -- Run alone on a queue whose tail is the last node, with no other reader, `enqueue` links a new node
  -- with the item behind the tail and makes it the tail.
  pub enqueue-enqueued :
      (fuel spins n x : ℕ)
      → let p = allocator m.live in
        x ≢ 0
        → has m.tail_word (p ∷ m.live) ≡ true
        → update m.next_of p 0 m.tail_word ≡ 0
        → IsIdle n (linked p x thread m)
        → m.clock_word < unassigned
        → exec allocator (enqueue (suc fuel) (suc spins) n x thread) m
          ≡ ok true (enqueued p x thread m)
  unfolding enqueue new_node valid read write
  enqueue-enqueued fuel spins n x some_x alive last idle early =
      let p = allocator m.live in
      let t = m.tail_word in
      let own : has p (p ∷ m.live) ≡ true = has_head p m.live in
      let g : Mem = with_node p x m in
      false-step allocator _ _ m (x == 0) (ground arith)
      ∙ alloc-step allocator _ m
      ∙ store-step allocator _ _ (item p) x own
      ∙ store-step allocator _ _ (next p) 0 own
      ∙ exec-then allocator (enqueue_loop (suc fuel) p 0 thread) _ g
          (enqueue_loop_run allocator thread g registered fuel p alive last)
      ∙ cas-step allocator _ _ tail t p refl refl
      ∙ exec-then allocator (read_unlock thread) _ _
          (read_unlock-unlocked allocator thread _ registered)
      ∙ exec-then allocator (synchronize_rcu (suc spins) n) _ _
          (synchronize_rcu-raised allocator spins n (linked p x thread m) idle early)
      ∙ ret-step allocator true _

  dequeue_loop_run :
      (fuel : ℕ)
      → has m.head_word m.live ≡ true
      → m.next_of m.head_word ≢ 0
      → m.head_word ≢ m.tail_word
      → has (m.next_of m.head_word) m.live ≡ true
      → exec allocator (dequeue_loop (suc fuel) thread) m
        ≡ ok
            (some (m.head_word, m.item_of (m.next_of m.head_word)))
            (record (reading thread m) { head_word = m.next_of m.head_word })
  unfolding dequeue_loop valid read write
  dequeue_loop_run fuel alive inner apart alive' =
      let h = m.head_word in
      let d = m.next_of h in
      let g : Mem = reading thread m in
      load-step allocator _ m head refl
      ∙ exec-then allocator (read_lock thread) _ m (read_lock-reading allocator thread m registered)
      ∙ load-step allocator _ g head refl
      ∙ true-step allocator _ _ g (h == h) (==_refl h)
      ∙ load-step allocator _ g tail refl
      ∙ load-step allocator _ g (next h) alive
      ∙ load-step allocator _ g head refl
      ∙ true-step allocator _ _ g (h == h) (==_refl h)
      ∙ false-step allocator _ _ g (d == 0) (ground arith)
      ∙ false-step allocator _ _ g (h == m.tail_word) (ground arith)
      ∙ cas-step allocator _ g head h d refl refl
      ∙ true-step allocator _ _ _ (h == h) (==_refl h)
      ∙ load-step allocator _ _ (item d) alive'
      ∙ ret-step allocator (some (h, m.item_of d)) _

  -- Run alone with no other reader, `dequeue` returns the item of the node after the head, makes that
  -- node the head and deletes the old one.
  pub dequeue-dequeued :
      (fuel spins n : ℕ)
      → has m.head_word m.live ≡ true
      → m.head_word ≢ 0
      → m.next_of m.head_word ≢ 0
      → m.head_word ≢ m.tail_word
      → has (m.next_of m.head_word) m.live ≡ true
      → thread < max_threads
      → IsIdle n (advanced thread m)
      → m.clock_word < unassigned
      → exec allocator (dequeue (suc fuel) (suc spins) n thread) m
        ≡ ok (m.item_of (m.next_of m.head_word)) (dequeued thread m)
  unfolding dequeue dequeue_node delete_retired_nodes delete_nodes valid read write
  dequeue-dequeued fuel spins n alive ne inner apart alive' counted idle early =
      let h = m.head_word in
      let x = m.item_of (m.next_of h) in
      let in_range = lt→ltb thread max_threads counted in
      let g : Mem = record (reading thread m) { head_word = m.next_of h } in
      exec-then allocator (dequeue_loop (suc fuel) thread) (dequeue_node (suc spins) n thread) m
        (dequeue_loop_run fuel alive inner apart alive')
      ∙ load-step allocator _ g (retired_count thread) in_range
      ∙ store-step allocator _ g (retired_count thread) (incr (m.retired_counts thread)) in_range
      ∙ exec-then allocator (read_unlock thread) _ _
          (read_unlock-unlocked allocator thread _ registered)
      ∙ exec-then allocator (delete_retired_nodes (suc spins) n (h ∷ []) thread) _ _ (
          exec-then allocator (synchronize_rcu (suc spins) n) _ _
            (synchronize_rcu-raised allocator spins n (advanced thread m) idle early)
          ∙ load-step allocator _ _ (retired_count thread) in_range
          ∙ store-step allocator _ _ (retired_count thread) _ in_range
          ∙ free-step allocator _ _ h ne alive
          ∙ ret-step allocator tt _)
      ∙ ret-step allocator x _
