-- ===== src/Urcu/CallExamples.antt =====
-- Calls of the RCU stack, queue and list: the theorems at concrete inputs.
use smr_implementations.Prelude.{List, [], arith, false, refl, ◌∷◌, ◌≡◌, ◌≤◌}
use smr_implementations.Machine.{act, clock, free, load, ret, ◌>>◌}
use smr_implementations.Machine.Exec.{Returns, exec}
use smr_implementations.Machine.Sample.{bump, bump-IsFresh, even_bump, even_bump-IsFresh, raw}
use smr_implementations.Benchmark.Calls.{
  Call, calls, inserts, one_call, queue_step, replies, stack_step, takes,
}
use smr_implementations.Urcu.Benchmark.{linked_list, queue, stack}
use smr_implementations.Urcu.QueueCalls.{own_calls-replies}
use smr_implementations.Urcu.StackCalls.{calls-replies}
use smr_implementations.Machine.Interfered.{Reaches}
use smr_implementations.Urcu.Deletion.{pop-dequeue-never_free}
use smr_implementations.Urcu.SetCalls.{set_calls-replies}
use smr_implementations.Benchmark.Sets.{
  SetCall, adds, asks, below, equal, removes, set_call, set_step,
}
use smr_implementations.Urcu.LinkedList
use smr_implementations.Urcu.Queue
use smr_implementations.Urcu.Stack

-- Two threads push and pop, the last time on an empty stack.
abbrev both : List Call
both = inserts 5 0 ∷ inserts 7 1 ∷ takes 0 ∷ takes 0 ∷ takes 1 ∷ []

calls-replies_example :
    Returns
      (λ rs m'. rs ≡ replies stack_step [] both)
      (exec bump (Stack.construct 2 >> calls (one_call (stack 1 2)) both) raw)
calls-replies_example =
    calls-replies bump bump-IsFresh 0 2 (omega arith) both raw
      (omega arith, (omega arith, (omega arith, (omega arith, (omega arith, tt))))) (omega arith)

-- Thread 1 enqueues and dequeues, once an item that is refused, and once on an empty queue.
abbrev one : List Call
one = takes 1 ∷ inserts 5 1 ∷ inserts 0 1 ∷ inserts 7 1 ∷ takes 1 ∷ takes 1 ∷ takes 1 ∷ []

own_calls-replies_example :
    Returns
      (λ rs m'. rs ≡ replies queue_step [] one)
      (exec bump (Queue.construct 2 >> calls (one_call (queue 1 2)) one) raw)
own_calls-replies_example =
    own_calls-replies bump bump-IsFresh 0 2 1 (omega arith) (omega arith) one raw
      (refl, (refl, (refl, (refl, (refl, (refl, (refl, tt))))))) (omega arith)

-- Two threads on a list. A value is ranked by the pointer itself.
abbrev some_set_calls : List SetCall
some_set_calls =
    adds 5 0 ∷ adds 3 1 ∷ adds 5 1 ∷ asks 5 0 ∷ removes 5 0 ∷ asks 5 1 ∷ asks 3 0 ∷ removes 9 1 ∷ []

set_calls-replies_example :
    Returns
      (λ rs m'. rs ≡ replies (set_step (λ x. x)) (λ _. false) some_set_calls)
      (exec even_bump
        (LinkedList.construct 2
          >> calls (set_call (linked_list (below (λ x. x)) (equal (λ x. x)) 9 2 77)) some_set_calls)
        raw)
set_calls-replies_example =
    set_calls-replies even_bump even_bump-IsFresh (λ live. omega arith) 7 2 77 (omega arith)
      (λ x. x) some_set_calls raw
      (
        (omega arith, omega arith),
        (
          (omega arith, omega arith),
          (
            (omega arith, omega arith),
            (
              (omega arith, omega arith),
              (
                (omega arith, omega arith),
                (
                  (omega arith, omega arith),
                  ((omega arith, omega arith), ((omega arith, omega arith), tt)),
                ),
              ),
            ),
          ),
        ),
      )
      (omega arith) (omega arith)

-- Thread 1 reads at version 3 while thread 0 calls `pop` or `dequeue`.
pop-dequeue-never_free_example :
    (¬ Reaches bump
      (λ m. (m.reserved 1 ≡ 3) × (3 ≤ m.clock_word))
      (Stack.pop 4 5 2 0)
      (act (free 12) (λ r. ret r))
      ((load clock, 3) ∷ []))
    × (¬ Reaches bump
        (λ m. (m.reserved 1 ≡ 3) × (3 ≤ m.clock_word))
        (Queue.dequeue 4 5 2 0)
        (act (free 12) (λ r. ret r))
        ((load clock, 3) ∷ []))
pop-dequeue-never_free_example =
    pop-dequeue-never_free bump 4 5 2 0 1 3 12 (λ r. ret r) ((load clock, 3) ∷ []) (omega arith)
