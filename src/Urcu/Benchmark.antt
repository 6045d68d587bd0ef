-- ===== src/Urcu/Benchmark.antt =====
-- urcu/Benchmark.cpp, by the parts that the four folders' copies share. `fuel` is given to every
-- loop, `n` is
-- the number of threads that the constructors are called with, `unset` what an uninitialised variable of `find` holds. `less` and `same` are `<` and `==` on the
-- integers that two elements point at.
use smr_implementations.Prelude.{Bool, List, Option, [], length, ℕ, ◌-◌, ◌∷◌}
use smr_implementations.Machine.{Mem, ret, ◌>>=◌}
use smr_implementations.Machine.Exec.{Run}
use smr_implementations.Benchmark.{
  Chance, Container, SearchList, benchmark, list_round, queue_round, signed_le,
}
use smr_implementations.Benchmark.Accounting.{Report}
use smr_implementations.Benchmark.Main.{Job}
use smr_implementations.Benchmark.Main
use smr_implementations.Urcu.LinkedList
use smr_implementations.Urcu.Queue
use smr_implementations.Urcu.Stack
use Prim.Native.String.{String}

-- The template arguments.
unfoldable pub queue : (fuel n : ℕ) → Container
queue fuel n = record {
  construct = Queue.construct n;
  insert = λ x t. Queue.enqueue fuel fuel n x t;
  take = λ t. Queue.dequeue fuel fuel n t;
  retired = Queue.get_retired_nodes_count;
  destruct = Queue.destruct fuel fuel fuel n;
}

unfoldable pub stack : (fuel n : ℕ) → Container
stack fuel n = record {
  construct = Stack.construct n;
  insert = λ x t. Stack.push fuel x t;
  take = λ t. Stack.pop fuel fuel n t;
  retired = Stack.get_retired_nodes_count;
  destruct = Stack.destruct fuel fuel fuel n;
}

unfoldable pub linked_list : (less same : ℕ → ℕ → Bool) (fuel n unset : ℕ) → SearchList
linked_list less same fuel n unset = record {
  construct = LinkedList.construct n;
  add = λ x t. LinkedList.add less same fuel fuel fuel n x unset t;
  remove_item = λ x t. LinkedList.remove_item less same fuel fuel fuel n x unset t;
  contains = λ x t. LinkedList.contains less same fuel fuel fuel n x unset t;
  retired = LinkedList.get_retired_nodes_count;
  destruct = LinkedList.destruct fuel;
}

module _ (allocator : List ℕ → ℕ) (fuel : ℕ) (element : ℕ → ℕ) where
  unfoldable pub benchmark_queues :
      (num_threads update_ratio total_elements : ℕ) → List Chance → Mem → Run Report
  benchmark_queues num_threads update_ratio total_elements chances =
      benchmark allocator
        (record {
          construct = (queue fuel num_threads).construct;
          fill = λ i. (queue fuel num_threads).insert (element i) 0 >>= λ _. ret tt;
          round = queue_round (queue fuel num_threads) update_ratio total_elements element;
          retired = (queue fuel num_threads).retired;
          destruct = (queue fuel num_threads).destruct;
        })
        signed_le (length chances - 1) num_threads total_elements chances

  unfoldable pub benchmark_stacks :
      (num_threads update_ratio total_elements : ℕ) → List Chance → Mem → Run Report
  benchmark_stacks num_threads update_ratio total_elements chances =
      benchmark allocator
        (record {
          construct = (stack fuel num_threads).construct;
          fill = λ i. (stack fuel num_threads).insert (element i) 0 >>= λ _. ret tt;
          round = queue_round (stack fuel num_threads) update_ratio total_elements element;
          retired = (stack fuel num_threads).retired;
          destruct = (stack fuel num_threads).destruct;
        })
        signed_le (length chances - 1) num_threads total_elements chances

  unfoldable pub benchmark_linked_list :
      (less same : ℕ → ℕ → Bool)
      → (unset num_threads update_ratio total_elements : ℕ) → List Chance
      → Mem
      → Run Report
  benchmark_linked_list less same unset num_threads update_ratio total_elements chances =
      let total = length chances in
      let l = linked_list less same fuel num_threads unset in
      benchmark allocator
        (record {
          construct = l.construct;
          fill = λ i. l.add (element i) 0 >>= λ _. ret tt;
          round = list_round l update_ratio total_elements element;
          retired = l.retired;
          destruct = l.destruct;
        })
        signed_le (total - 1) num_threads total_elements chances

abbrev pub total_threads : List ℕ
total_threads = 2 ∷ 4 ∷ 8 ∷ 16 ∷ 24 ∷ 32 ∷ 40 ∷ 64 ∷ []

unfoldable pub main : (argv : List String) → Option (List Job)
main argv = Main.main total_threads argv
