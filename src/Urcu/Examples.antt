-- ===== src/Urcu/Examples.antt =====
-- URCU.hpp at concrete memories.
use smr_implementations.Prelude.{[], arith, count, refl, ℕ, ◌+◌, ◌∷◌, ◌≡◌, ◌≤◌}
use smr_implementations.Machine.{Mem, clock, load, reservation, ret}
use smr_implementations.Machine.Sample.{bump, raw, two_nodes}
use smr_implementations.Machine.Guarded.{Guarded}
use smr_implementations.Machine.Interfered.{Reaches}
use smr_implementations.Urcu.Manager.{synchronize_rcu, unassigned}
use smr_implementations.Machine.Exec.{Returns, exec, fault, ok}
use smr_implementations.Urcu.EmptyDequeue.{dequeue-empty, dequeue-empty-blocks, reading}
use smr_implementations.Urcu.Destructor.{destruct-without, without}
use smr_implementations.Urcu.LinkedList
use smr_implementations.Urcu.TooMany.{construct-fault, construct-ok}
use smr_implementations.Urcu.Stack
use smr_implementations.Urcu.Queue
use smr_implementations.Urcu.Queue.{dequeue}
use smr_implementations.Urcu.Grace.{
  AnyAction, Waited, synchronize_rcu-Waited, synchronize_rcu-blocked,
}

synchronize_rcu-Waited_example : Guarded AnyAction (synchronize_rcu 3 2) [] (λ _ h. Waited 2 h)
synchronize_rcu-Waited_example = synchronize_rcu-Waited 3 2

synchronize_rcu-blocked_example :
    ¬ Reaches bump
      (λ m. (m.reserved 1 ≡ 4) × (4 ≤ m.clock_word))
      (synchronize_rcu 3 2)
      (ret tt)
      ((load (reservation 1), 6) ∷ (load clock, 5) ∷ [])
synchronize_rcu-blocked_example =
    synchronize_rcu-blocked bump 3 2 1 4 ((load (reservation 1), 6) ∷ (load clock, 5) ∷ [])
      (omega arith)

-- A queue that holds only its sentinel, with two readers that have not begun.
abbrev empty_queue : Mem
empty_queue = record raw {
  head_word = 2;
  tail_word = 2;
  live = 2 ∷ [];
  reserved = λ k. unassigned;
  num_reserved = 2;
  clock_word = 9;
}

dequeue-empty_example : exec bump (dequeue 1 3 2 0) empty_queue ≡ ok 0 (reading 0 empty_queue)
dequeue-empty_example = dequeue-empty bump 0 empty_queue (omega arith) 0 3 2 refl refl

dequeue-empty-blocks_example :
    Returns
      (λ r m'.
        (r ≡ 0)
        × ¬ Reaches bump
            (λ m''. (m''.reserved 0 ≡ m'.reserved 0) × (m'.clock_word ≤ m''.clock_word))
            (synchronize_rcu 3 2)
            (ret tt)
            ((load clock, 9) ∷ []))
      (exec bump (dequeue 1 3 2 0) empty_queue)
dequeue-empty-blocks_example =
    dequeue-empty-blocks bump 0 empty_queue (omega arith) 0 3 2 3 ((load clock, 9) ∷ []) refl refl
      (omega arith)

-- `main` passes 64 threads last.
construct-fault_example :
    (exec bump (Queue.construct 64) raw ≡ fault) × (exec bump (Stack.construct 64) raw ≡ fault)
construct-fault_example = construct-fault bump 64 raw (omega arith)

-- The nodes 12 and 10 as a linked list.
abbrev two_linked : Mem
two_linked = record two_nodes { head_word = 12; num_reserved = 2 }

destruct-without_example :
    (exec bump (LinkedList.destruct 2) two_linked
      ≡ ok tt
          (record two_linked { live = without (12 ∷ 10 ∷ []) two_linked.live; num_reserved = 0 }))
    × ((q : ℕ)
        → count q (without (12 ∷ 10 ∷ []) two_linked.live) + count q (12 ∷ 10 ∷ [])
          ≡ count q two_linked.live)
destruct-without_example =
    destruct-without bump 12 (10 ∷ []) 2 two_linked (refl, omega arith, (refl, omega arith, refl))
      (λ q. omega arith) (omega arith)

construct-ok_example :
    ((m' : Mem) × (exec bump (Queue.construct 40) raw ≡ ok tt m'))
    × ((m' : Mem) × (exec bump (Stack.construct 40) raw ≡ ok tt m'))
construct-ok_example = construct-ok bump 40 raw (omega arith)
