-- ===== src/Urcu/ListRemove.antt =====
-- LinkedListURCU.hpp: `remove` with no other thread in between.
use smr_implementations.Prelude.{
  ==_refl, Bool, List, [], ap, count, false, has, if◌then◌else◌, length, remove, suc, sym, true, ℕ,
  ◌<◌, ◌==◌, ◌∙◌, ◌∷◌, ◌≡◌, ◌≢◌,
}
use smr_implementations.Machine.{Mem, free, head, next, read, ret, run, update, valid, write, ◌>>◌}
use smr_implementations.Machine.Exec.{exec, exec-then, ok}
use smr_implementations.Machine.Steps.{cas-step, false-step, free-step, ret-step, true-step}
use smr_implementations.Benchmark.Sets.{member}
use smr_implementations.Urcu.Manager.{read_lock, read_unlock, synchronize_rcu, unassigned}
use smr_implementations.Urcu.EmptyDequeue.{read_lock-reading, reading}
use smr_implementations.Urcu.Alone.{
  IsIdle, raised, read_unlock-unlocked, synchronize_rcu-raised, unlocked,
}
use smr_implementations.Urcu.LinkedList.{
  delete_retired, find, get_marked, get_unmarked, remove_item, remove_loop,
}
use smr_implementations.Urcu.ListFind.{head_or, hit, pred_after}
use smr_implementations.Urcu.ListLinks.{replaced, write-relinked}
use smr_implementations.Urcu.ListSet.{HasKeys}
use smr_implementations.Urcu.ListChange.{behind, front, pred-read, pred-valid}
use smr_implementations.Urcu.ListAlone.{find_keys, found-member}

module _ (allocator : List ℕ → ℕ) (less same : ℕ → ℕ → Bool) (rounds steps spins n x unset : ℕ)
    (xs : List ℕ) (thread : ℕ) (m : Mem) (registered : thread < m.num_reserved)
    (enough : length xs < steps) (s : HasKeys xs (reading thread m)) where
  -- A key that is not there.
  pub remove_missing :
      member less same x xs ≡ false
      → exec allocator (remove_item less same (suc (suc rounds)) steps spins n x unset thread) m
        ≡ ok false (unlocked thread (reading thread m))
  unfolding remove_item remove_loop delete_retired
  remove_missing missing =
      exec-then allocator (read_lock thread) _ m (read_lock-reading allocator thread m registered)
      ∙ exec-then allocator (find less same (suc rounds) steps x unset [] thread) _ _ (
          find_keys allocator less same rounds steps spins n x unset xs thread [] (reading thread m)
            s enough)
      ∙ false-step allocator _ _ (reading thread m) _ (
          found-member allocator less same rounds steps spins n x unset xs thread (reading thread m)
            s
          ∙ missing)
      ∙ exec-then allocator (read_unlock thread) _ _
          (read_unlock-unlocked allocator thread (reading thread m) registered)
      ∙ ret-step allocator false _

  module _ (c : ℕ) (cs : List ℕ) (e : behind less same x xs (reading thread m) s ≡ c ∷ cs)
      (out : count c (front less same x xs (reading thread m) s) ≡ 0) (some_c : c ≢ 0)
      (alive : has c m.live ≡ true) (even : get_unmarked c ≡ c)
      (even' : get_unmarked (m.next_of c) ≡ m.next_of c) where
    abbrev fs : List ℕ
    fs = front less same x xs (reading thread m) s

    -- The memory when the node has been unlinked, and after it has been deleted.
    abbrev pub unlinked : Mem
    unlinked =
        unlocked thread (replaced fs c (get_marked (m.next_of c)) (m.next_of c) (reading thread m))

    abbrev pub removed : Mem
    removed = record (raised unlinked) { live = remove c m.live }

    find_run' :
        exec allocator (find less same (suc rounds) steps x unset [] thread) (reading thread m)
        ≡ ok
            (record {
              found = same (m.item_of c) x;
              pred = pred_after head fs;
              curr = c;
              succ = m.next_of c;
              retired = [];
            })
            (reading thread m)
    find_run' =
        find_keys allocator less same rounds steps spins n x unset xs thread [] (reading thread m) s
          enough
        ∙ ap
            (λ l.
              ok
                (record {
                  found = hit less same m.item_of x l;
                  pred = pred_after head fs;
                  curr = head_or l s.first;
                  succ = m.next_of (head_or l s.first);
                  retired = [];
                })
                (reading thread m))
            e

    -- The node with the key is marked, unlinked and, after a grace period, deleted.
    pub remove_found :
        same (m.item_of c) x ≡ true
        → IsIdle n unlinked
        → m.clock_word < unassigned
        → exec allocator
            (remove_item less same (suc (suc rounds)) steps (suc spins) n x unset thread)
            m
          ≡ ok true removed
    unfolding remove_item remove_loop delete_retired valid read write
    remove_found old idle early =
        let g : Mem = reading thread m in
        let succ = m.next_of c in
        let u = get_unmarked succ in
        let w = get_unmarked c in
        let m3 : Mem = record g { next_of = update m.next_of c (get_marked succ) } in
        let points : read m3 (pred_after head fs) ≡ c =
          pred-read less same x xs g s c (get_marked succ) out ∙ ap (λ l. head_or l s.first) e in
        let there : valid m3 (pred_after head fs) ≡ true =
          pred-valid less same x xs g s m3.next_of in
        exec-then allocator (read_lock thread) _ m (read_lock-reading allocator thread m registered)
        ∙ exec-then allocator (find less same (suc rounds) steps x unset [] thread) _ g find_run'
        ∙ true-step allocator _ _ g (same (m.item_of c) x) old
        ∙ cas-step allocator _ g (next c) u (get_marked succ) alive (sym even')
        ∙ true-step allocator _ _ m3 (u == u) (==_refl u)
        ∙ cas-step allocator _ m3 (pred_after head fs) w u there (points ∙ sym even)
        ∙ ap
            (exec allocator (
              read_unlock thread
              >> ((if w == w then synchronize_rcu (suc spins) n >> run (free w) else ret tt)
                  >> ret true)))
            (ap (write m3 (pred_after head fs)) even' ∙ write-relinked fs succ m3)
        ∙ exec-then allocator (read_unlock thread) _ _ (
            read_unlock-unlocked allocator thread (replaced fs c (get_marked succ) succ g)
              registered)
        ∙ exec-then allocator
            (if w == w then synchronize_rcu (suc spins) n >> run (free w) else ret tt) _ unlinked
            (true-step allocator _ _ unlinked (w == w) (==_refl w)
              ∙ exec-then allocator (synchronize_rcu (suc spins) n) _ unlinked
                  (synchronize_rcu-raised allocator spins n unlinked idle early)
              ∙ ap (λ j. exec allocator (run (free j)) (raised unlinked)) even
              ∙ free-step allocator _ (raised unlinked) c some_c alive
              ∙ ret-step allocator tt removed)
        ∙ ret-step allocator true removed
