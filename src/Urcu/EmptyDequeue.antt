-- ===== src/Urcu/EmptyDequeue.antt =====
-- QueueURCU.hpp: `dequeue` of an empty queue, with no other thread in between, and what it leaves.
use smr_implementations.Prelude.{
  ==_refl, List, arith, has, lt→ltb, none, refl, suc, true, ℕ, ◌<◌, ◌==◌, ◌∙◌, ◌≡◌, ◌≤◌,
}
use smr_implementations.Machine.{
  Mem, clock, head, next, read, reservation, ret, tail, update, valid, write,
}
use smr_implementations.Machine.Exec.{Returns, exec, exec-then, ok, returns}
use smr_implementations.Machine.Steps.{load-step, ret-step, store-step, true-step}
use smr_implementations.Machine.Guarded.{History}
use smr_implementations.Machine.Interfered.{Reaches}
use smr_implementations.Urcu.Manager.{read_lock, synchronize_rcu}
use smr_implementations.Urcu.Grace.{synchronize_rcu-blocked}
use smr_implementations.Urcu.Queue.{dequeue, dequeue_loop, dequeue_node}

-- The memory with a thread registered as reading at the updater's version.
abbrev pub reading : (thread : ℕ) → Mem → Mem
reading thread m = record m { reserved = update m.reserved thread m.clock_word }

module _ (allocator : List ℕ → ℕ) (thread : ℕ) (m : Mem)
    (registered : thread < m.num_reserved) where
  -- Run alone, `readLock` registers the thread at the updater's version and changes nothing else.
  pub read_lock-reading : exec allocator (read_lock thread) m ≡ ok tt (reading thread m)
  unfolding read_lock valid read write
  read_lock-reading =
      load-step allocator _ m clock refl
      ∙ store-step allocator _ m (reservation thread) m.clock_word (lt→ltb _ _ registered)
      ∙ load-step allocator _ (reading thread m) clock refl
      ∙ true-step allocator _ _ (reading thread m) (m.clock_word == m.clock_word)
          (==_refl m.clock_word)
      ∙ ret-step allocator tt (reading thread m)

  dequeue_loop-empty :
      (fuel : ℕ)
      → has m.head_word m.live ≡ true
      → m.next_of m.head_word ≡ 0
      → exec allocator (dequeue_loop (suc fuel) thread) m ≡ ok none (reading thread m)
  unfolding dequeue_loop valid read
  dequeue_loop-empty fuel alive last =
      let h = m.head_word in
      let m' : Mem = reading thread m in
      load-step allocator _ m head refl
      ∙ exec-then allocator (read_lock thread) _ m read_lock-reading
      ∙ load-step allocator _ m' head refl
      ∙ true-step allocator _ _ m' (h == h) (==_refl h)
      ∙ load-step allocator _ m' tail refl
      ∙ load-step allocator _ m' (next h) alive
      ∙ load-step allocator _ m' head refl
      ∙ true-step allocator _ _ m' (h == h) (==_refl h)
      ∙ true-step allocator _ _ m' (m.next_of h == 0) (ground arith)
      ∙ ret-step allocator none m'

  -- Run alone on an empty queue, `dequeue` returns null at once and leaves its thread registered as
  -- reading, which is all that it changes.
  pub dequeue-empty :
      (fuel spins n : ℕ)
      → has m.head_word m.live ≡ true
      → m.next_of m.head_word ≡ 0
      → exec allocator (dequeue (suc fuel) spins n thread) m ≡ ok 0 (reading thread m)
  unfolding dequeue dequeue_node
  dequeue-empty fuel spins n alive last =
      exec-then allocator (dequeue_loop (suc fuel) thread) (dequeue_node spins n thread) m
        (dequeue_loop-empty fuel alive last)
      ∙ ret-step allocator 0 (reading thread m)

  -- So an empty queue blocks every updater: after such a `dequeue`, as long as its thread calls
  -- nothing else and the updater's version does not go back, no `synchronizeRCU` returns.
  pub dequeue-empty-blocks :
      (fuel spins n fuel' : ℕ) (h : History)
      → has m.head_word m.live ≡ true
      → m.next_of m.head_word ≡ 0
      → thread < n
      → Returns
          (λ r m'.
            (r ≡ 0)
            × ¬ Reaches allocator
                (λ m''.
                  (m''.reserved thread ≡ m'.reserved thread) × (m'.clock_word ≤ m''.clock_word))
                (synchronize_rcu fuel' n)
                (ret tt)
                h)
          (exec allocator (dequeue (suc fuel) spins n thread) m)
  dequeue-empty-blocks fuel spins n fuel' h alive last lt =
      rw (dequeue-empty fuel spins n alive last) (returns (refl, blocked))
    where
      own : (reading thread m).reserved thread ≡ m.clock_word
      own = ground arith

      blocked :
          ¬ Reaches allocator
            (λ m''.
              (m''.reserved thread ≡ (reading thread m).reserved thread)
              × (m.clock_word ≤ m''.clock_word))
            (synchronize_rcu fuel' n)
            (ret tt)
            h
      blocked = rw own (synchronize_rcu-blocked allocator fuel' n thread m.clock_word h lt)
