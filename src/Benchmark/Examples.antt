-- ===== src/Benchmark/Examples.antt =====
-- Benchmark.cpp with a stack of hazardpointer and its list, at concrete draws.
use smr_implementations.Machine.Exec.{Run, exec, fault, ok, out_of_fuel}
use smr_implementations.Prelude.{
  List, suc, zero, [], arith, leb, ltb, refl, some, ℕ, ◌*◌, ◌+◌, ◌-◌, ◌/◌, ◌==◌, ◌∷◌, ◌≡◌,
}
use smr_implementations.Machine.{Mem, for_loop, perform, read, ret, valid, write, ◌>>=◌}
use smr_implementations.Benchmark.{
  Chance, Container, SearchList, Subject, collect, draw, work, workers, list_round, one_run,
  queue_round, remove_back, seed, stack_round, take_back,
}
use smr_implementations.Machine.Sample.{bump, raw}
use smr_implementations.Machine.Threads.{join, turn, turn_of, turns}
use smr_implementations.HazardPointer.Manager
use smr_implementations.HazardPointer.Stack
use smr_implementations.Benchmark.Accounting.{Report, account}
use smr_implementations.Benchmark.Ranks.{IsRanked, account-IsRanked}
use smr_implementations.Benchmark.Counts.{as_stack, round_of}
use smr_implementations.Benchmark.Schedules.{AllCounts, Counted, one_run-AllCounts}
use smr_implementations.Benchmark.Draws.{rounds-main}
use smr_implementations.HazardPointer.Benchmark.{linked_list, stack}

abbrev some_stack : Container
some_stack = stack 9 2

abbrev some_list : SearchList
some_list = linked_list ltb (λ a b. a == b) 9 2 0

-- The pointer to the element with an index.
abbrev element : ℕ → ℕ
element i = 1000 + 2 * i

rounds-main_example :
    (queue_round some_stack 5000 10000 element 3 777 ≡ take_back some_stack (element 1) 3)
    × (stack_round some_stack 5000 10000 element 3 777
        ≡ (some_stack.insert (element 1) 3 >>= λ _. ret 1))
    × (list_round some_list 5000 10000 element 3 777 ≡ remove_back some_list (element 1) 3)
rounds-main_example = rounds-main some_stack some_list element 3 777 (omega arith)

-- A run of two threads on the stack, with two draws each: three elements to begin with.
abbrev subject : Subject
subject = record {
  construct = some_stack.construct;
  fill = λ i. some_stack.insert (element i) 0 >>= λ _. ret tt;
  round = λ t r. ret 0;
  retired = some_stack.retired;
  destruct = some_stack.destruct;
}

-- The threads take turns, so many times.
abbrev alternate : ℕ → List ℕ
alternate zero = []
alternate (suc n) = 0 ∷ 1 ∷ alternate n

abbrev chance : Chance
chance = record { schedule = alternate 60; drawn = λ t. 3 ∷ 5 ∷ [] }

abbrev the_run : Run (List ℕ × List ℕ)
the_run =
    one_run bump (record subject { round = round_of (as_stack some_stack) 12 3 element }) 2 3 chance
      raw

abbrev memory_of : {A : Type 0} → Run A → Mem
memory_of (ok a m) = m
memory_of fault = raw
memory_of out_of_fuel = raw

the_run_ends : the_run ≡ ok (3 ∷ 3 ∷ [], 1 ∷ 1 ∷ []) (memory_of the_run)
unfolding one_run exec stack for_loop perform read valid write turns turn_of turn workers work
    stack_round collect draw seed take_back join Stack.construct Stack.destruct Stack.drain
    Stack.get_retired_count_stack Stack.new_node Stack.pop Stack.pop_loop Stack.pop_node Stack.push
    Stack.push_loop Manager.clear Manager.construct Manager.delete_retired Manager.destruct
    Manager.get_retired_count Manager.protect Manager.protect_loop Manager.reclaim
    Manager.retire_node Manager.scan_slots Manager.scan_threads Manager.store_hazard_ptr
    Manager.sweep
the_run_ends = refl

-- Each thread has pushed once, and popped and pushed once.
one_run-AllCounts_example : AllCounts (Counted 3 chance.drawn) 0 2 (3 ∷ 3 ∷ [])
one_run-AllCounts_example =
    one_run-AllCounts bump subject (as_stack some_stack) 12 2 3 element chance raw
      (memory_of the_run) (3 ∷ 3 ∷ []) (1 ∷ 1 ∷ []) the_run_ends

-- Five runs: 40 is printed, and 20 is the median.
account-IsRanked_example :
    (r : Report) × (account leb 4 5 (20 ∷ 40 ∷ 10 ∷ 30 ∷ 10 ∷ []) (3 ∷ 0 ∷ 7 ∷ 1 ∷ 2 ∷ []) ≡ some r)
    × IsRanked 4 r.max_ops (20 ∷ 40 ∷ 10 ∷ 30 ∷ 10 ∷ [])
    × IsRanked (5 - 1) r.max_retired_nodes (3 ∷ 0 ∷ 7 ∷ 1 ∷ 2 ∷ [])
    × IsRanked (5 / 2) r.median_ops (20 ∷ 40 ∷ 10 ∷ 30 ∷ 10 ∷ [])
account-IsRanked_example =
    account-IsRanked 4 5 (20 ∷ 40 ∷ 10 ∷ 30 ∷ 10 ∷ []) (3 ∷ 0 ∷ 7 ∷ 1 ∷ 2 ∷ []) (omega arith)
      (omega arith) refl refl
