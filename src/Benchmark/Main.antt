-- ===== src/Benchmark/Main.antt =====
-- Benchmark.cpp: `main`, with hazardpointer/Benchmark.cpp as the text. The folders differ in
-- `total_threads`. The second argument is read by `atoi` into a variable that nothing uses.
use smr_implementations.Prelude.{List, Option, [], if◌then◌else◌, none, some, ℕ, ◌++◌, ◌∷◌}
use Prim.Native.String.{String}
use text.Mathlib.Text.{◌==◌ as str_eq}

-- The structure that is measured; `unknown` where only an error line is printed.
pub data Kind : Type 0 where
  linked_list queue stack unknown : Kind

-- A call of one of the three benchmarks, with its arguments.
pub record Job : Type 0 where
  pub kind : Kind
  pub num_threads : ℕ
  pub update_ratio : ℕ
  pub test_length : ℕ
  pub total_runs : ℕ
  pub total_elements : ℕ

unfoldable pub kind_of : String → Kind
kind_of ds_type =
    if str_eq ds_type "linkedlist"
    then linked_list
    else if str_eq ds_type "queue"
    then queue
    else if str_eq ds_type "stack"
    then stack
    else unknown

abbrev pub ratios : List ℕ
ratios = 5000 ∷ []

-- The loops over `total_threads` and over `ratio`.
unfoldable pub jobs_at : Kind → (num_threads : ℕ) → (ratio : List ℕ) → List Job
jobs_at kind num_threads [] = []
jobs_at kind num_threads (r ∷ rs) =
    record {
      kind = kind;
      num_threads = num_threads;
      update_ratio = r;
      test_length = 10;
      total_runs = 5;
      total_elements = 10000;
    }
    ∷ jobs_at kind num_threads rs

unfoldable pub jobs : Kind → (total_threads : List ℕ) → List Job
jobs kind [] = []
jobs kind (n ∷ ns) = jobs_at kind n ratios ++ jobs kind ns

-- The calls that `main` makes, or none where it returns -1.
unfoldable pub main : (total_threads : List ℕ) → (argv : List String) → Option (List Job)
main total_threads [] = none
main total_threads (program ∷ []) = none
main total_threads (program ∷ ds_type ∷ rest) = some (jobs (kind_of ds_type) total_threads)
