-- ===== src/HazardPointer/Benchmark.antt =====
-- hazardpointer/Benchmark.cpp, by the parts that the four folders' copies share. `fuel` is given to every
-- loop, `n` is
-- the number of threads that the structure's manager was made with, `unset` what an uninitialised variable of `find` holds. `less` and `same` are `<` and `==` on the
-- integers that two elements point at.
use smr_implementations.Prelude.{Bool, List, Option, [], leb, length, ℕ, ◌-◌, ◌/◌, ◌∷◌}
use smr_implementations.Machine.{Mem, ret, ◌>>=◌}
use smr_implementations.Machine.Exec.{Run}
use smr_implementations.Benchmark.{
  Chance, Container, SearchList, benchmark, list_round, queue_round, stack_round,
}
use smr_implementations.Benchmark.Accounting.{Report}
use smr_implementations.Benchmark.Main.{Job}
use smr_implementations.Benchmark.Main
use smr_implementations.HazardPointer.LinkedList
use smr_implementations.HazardPointer.Manager
use smr_implementations.HazardPointer.Queue
use smr_implementations.HazardPointer.Stack
use Prim.Native.String.{String}

-- The template arguments.
unfoldable pub queue : (fuel n : ℕ) → Container
queue fuel n = record {
  construct = Queue.construct;
  insert = λ x t. Queue.enqueue fuel x t;
  take = λ t. Queue.dequeue fuel fuel n t;
  retired = Queue.get_retired_count_queue;
  destruct = Queue.destruct fuel fuel fuel n;
}

unfoldable pub stack : (fuel n : ℕ) → Container
stack fuel n = record {
  construct = Stack.construct;
  insert = λ x t. Stack.push fuel x t;
  take = λ t. Stack.pop fuel fuel n t;
  retired = Stack.get_retired_count_stack;
  destruct = Stack.destruct fuel fuel fuel n;
}

unfoldable pub linked_list : (less same : ℕ → ℕ → Bool) (fuel n unset : ℕ) → SearchList
linked_list less same fuel n unset = record {
  construct = LinkedList.construct;
  add = λ x t. LinkedList.add less same fuel fuel n x unset t;
  remove_item = λ x t. LinkedList.remove_item less same fuel fuel n x unset t;
  contains = λ x t. LinkedList.contains less same fuel fuel n x unset t;
  retired = LinkedList.get_retired_count_linked_list;
  destruct = Manager.destruct fuel;
}

module _ (allocator : List ℕ → ℕ) (fuel n : ℕ) (element : ℕ → ℕ) where
  unfoldable pub benchmark_queues :
      (num_threads update_ratio total_elements : ℕ) → List Chance → Mem → Run Report
  benchmark_queues num_threads update_ratio total_elements chances =
      benchmark allocator
        (record {
          construct = (queue fuel n).construct;
          fill = λ i. (queue fuel n).insert (element i) 0 >>= λ _. ret tt;
          round = queue_round (queue fuel n) update_ratio total_elements element;
          retired = (queue fuel n).retired;
          destruct = (queue fuel n).destruct;
        })
        leb (length chances - 1) num_threads total_elements chances

  unfoldable pub benchmark_stacks :
      (num_threads update_ratio total_elements : ℕ) → List Chance → Mem → Run Report
  benchmark_stacks num_threads update_ratio total_elements chances =
      benchmark allocator
        (record {
          construct = (stack fuel n).construct;
          fill = λ i. (stack fuel n).insert (element i) 0 >>= λ _. ret tt;
          round = stack_round (stack fuel n) update_ratio total_elements element;
          retired = (stack fuel n).retired;
          destruct = (stack fuel n).destruct;
        })
        leb (length chances - 1) num_threads total_elements chances

  unfoldable pub benchmark_linked_list :
      (less same : ℕ → ℕ → Bool)
      → (unset num_threads update_ratio total_elements : ℕ) → List Chance
      → Mem
      → Run Report
  benchmark_linked_list less same unset num_threads update_ratio total_elements chances =
      let total = length chances in
      let l = linked_list less same fuel n unset in
      benchmark allocator
        (record {
          construct = l.construct;
          fill = λ i. l.add (element i) 0 >>= λ _. ret tt;
          round = list_round l update_ratio total_elements element;
          retired = l.retired;
          destruct = l.destruct;
        })
        leb (total / 2) num_threads total_elements chances

abbrev pub total_threads : List ℕ
total_threads = 2 ∷ 4 ∷ 8 ∷ 16 ∷ 24 ∷ 32 ∷ 40 ∷ []

unfoldable pub main : (argv : List String) → Option (List Job)
main argv = Main.main total_threads argv
