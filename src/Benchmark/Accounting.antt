-- ===== src/Benchmark/Accounting.antt =====
-- Benchmark.cpp: how the sums over the threads, one for each run, become the numbers that are
-- printed and returned.
use smr_implementations.Prelude.{
  Bool, List, Option, [], get_elem?, if◌then◌else◌, leb, none, some, ℕ, ◌-◌, ◌/◌, ◌∷◌,
}

-- `std::sort`, with the order of the elements' type.
module _ (le : ℕ → ℕ → Bool) where
  unfoldable pub insert : ℕ → List ℕ → List ℕ
  insert x [] = x ∷ []
  insert x (y ∷ ys) = if le x y then x ∷ y ∷ ys else y ∷ insert x ys

  unfoldable pub sort : List ℕ → List ℕ
  sort [] = []
  sort (x ∷ xs) = insert x (sort xs)

infixl 5 ◌>>=◌
abbrev ◌>>=◌ : {A B : Type 0} → Option A → (A → Option B) → Option B
none >>= f = none
some a >>= f = f a

-- What is printed, `max_ops` and `max_retired_nodes`, and what is returned, `median_ops`.
pub record Report : Type 0 where
  pub max_ops : ℕ
  pub max_retired_nodes : ℕ
  pub median_ops : ℕ

-- `retired_le` is the order on the type of the retired counts, `max_index` where `maxops` is read.
-- None where an index is out of range.
unfoldable pub account :
    (retired_le : ℕ → ℕ → Bool)
    → (max_index total_runs : ℕ) → (agg retired_agg : List ℕ) → Option Report
account retired_le max_index total_runs agg retired_agg = do
  let ops = sort leb agg
  max_retired ← get_elem? (sort retired_le retired_agg) (total_runs - 1)
  max ← get_elem? ops max_index
  median ← get_elem? ops (total_runs / 2)
  some (record { max_ops = max; max_retired_nodes = max_retired; median_ops = median })
