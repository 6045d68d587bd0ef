-- ===== src/HazardEras/Benchmark.antt =====
-- hazarderas/Benchmark.cpp, by the parts that the four folders' copies share. `fuel` is given to every
-- loop, `unset` what an uninitialised variable of `find` holds. `less` and `same` are `<` and `==` on the
-- integers that two elements point at.
use smr_implementations.Prelude.{Bool, List, Option, [], leb, length, ℕ, ◌-◌, ◌/◌, ◌∷◌}
use smr_implementations.Machine.{Mem, ret, ◌>>=◌}
use smr_implementations.Machine.Exec.{Run}
use smr_implementations.Benchmark.{
  Chance, Container, SearchList, benchmark, list_round, queue_round,
}
use smr_implementations.Benchmark.Accounting.{Report}
use smr_implementations.Benchmark.Main.{Job}
use smr_implementations.Benchmark.Main
use smr_implementations.HazardEras.LinkedList
use smr_implementations.HazardEras.Manager
use smr_implementations.HazardEras.Queue
use smr_implementations.HazardEras.Stack
use Prim.Native.String.{String}

-- The template arguments.
unfoldable pub queue : (fuel : ℕ) → Container
queue fuel = record {
  construct = Queue.construct;
  insert = λ x t. Queue.enqueue fuel fuel x t;
  take = λ t. Queue.dequeue fuel fuel t;
  retired = Queue.get_retired_count_queue;
  destruct = Queue.destruct fuel fuel fuel;
}

unfoldable pub stack : (fuel : ℕ) → Container
stack fuel = record {
  construct = Stack.construct;
  insert = λ x t. Stack.push fuel fuel x t;
  take = λ t. Stack.pop fuel fuel t;
  retired = Stack.get_retired_count_stack;
  destruct = Stack.destruct fuel fuel fuel;
}

unfoldable pub linked_list : (less same : ℕ → ℕ → Bool) (fuel unset : ℕ) → SearchList
linked_list less same fuel unset = record {
  construct = LinkedList.construct;
  add = λ x t. LinkedList.add less same fuel fuel fuel x unset t;
  remove_item = λ x t. LinkedList.remove_item less same fuel fuel fuel x unset t;
  contains = λ x t. LinkedList.contains less same fuel fuel fuel x unset t;
  retired = LinkedList.get_retired_count_linked_list;
  destruct = Manager.destruct fuel;
}

module _ (allocator : List ℕ → ℕ) (fuel : ℕ) (element : ℕ → ℕ) where
  unfoldable pub benchmark_queues :
      (num_threads update_ratio total_elements : ℕ) → List Chance → Mem → Run Report
  benchmark_queues num_threads update_ratio total_elements chances =
      benchmark allocator
        (record {
          construct = (queue fuel).construct;
          fill = λ i. (queue fuel).insert (element i) 0 >>= λ _. ret tt;
          round = queue_round (queue fuel) update_ratio total_elements element;
          retired = (queue fuel).retired;
          destruct = (queue fuel).destruct;
        })
        leb (length chances - 1) num_threads total_elements chances

  unfoldable pub benchmark_stacks :
      (num_threads update_ratio total_elements : ℕ) → List Chance → Mem → Run Report
  benchmark_stacks num_threads update_ratio total_elements chances =
      benchmark allocator
        (record {
          construct = (stack fuel).construct;
          fill = λ i. (stack fuel).insert (element i) 0 >>= λ _. ret tt;
          round = queue_round (stack fuel) update_ratio total_elements element;
          retired = (stack fuel).retired;
          destruct = (stack fuel).destruct;
        })
        leb (length chances - 1) num_threads total_elements chances

  unfoldable pub benchmark_linked_list :
      (less same : ℕ → ℕ → Bool)
      → (unset num_threads update_ratio total_elements : ℕ) → List Chance
      → Mem
      → Run Report
  benchmark_linked_list less same unset num_threads update_ratio total_elements chances =
      let total = length chances in
      let l = linked_list less same fuel unset in
      benchmark allocator
        (record {
          construct = l.construct;
          fill = λ i. l.add (element i) 0 >>= λ _. ret tt;
          round = list_round l update_ratio total_elements element;
          retired = l.retired;
          destruct = l.destruct;
        })
        leb (total / 2) num_threads total_elements chances

abbrev pub total_threads : List ℕ
total_threads = 2 ∷ 4 ∷ 8 ∷ 16 ∷ 24 ∷ 32 ∷ 40 ∷ 64 ∷ []

unfoldable pub main : (argv : List String) → Option (List Job)
main argv = Main.main total_threads argv
