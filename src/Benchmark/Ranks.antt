-- ===== src/Benchmark/Ranks.antt =====
-- Benchmark.cpp: which of the sums over the threads the accounting picks.
use smr_implementations.Prelude.{
  List, [], arith, count, get_elem?, get_elem?-lt, if◌then◌else◌, leb, length, ltb, refl, some, suc,
  zero, ℕ, ◌+◌, ◌-◌, ◌/◌, ◌<◌, ◌∷◌, ◌≡◌, ◌≤◌,
}
use smr_implementations.Benchmark.Accounting.{Report, account, insert, sort}

-- How many elements are smaller than `v`, and how many are larger.
abbrev pub below : ℕ → List ℕ → ℕ
below v [] = 0
below v (x ∷ xs) = below v xs + (if ltb x v then 1 else 0)

abbrev pub above : ℕ → List ℕ → ℕ
above v [] = 0
above v (x ∷ xs) = above v xs + (if ltb v x then 1 else 0)

-- `v` is an element that can stand at index `i` of the list in order.
abbrev pub IsRanked : (i v : ℕ) → List ℕ → Type 0
IsRanked i v xs = (0 < count v xs) × (below v xs ≤ i) × (above v xs + i < length xs)

abbrev AllAbove : ℕ → List ℕ → Type 0
AllAbove v [] = Unit {0}
AllAbove v (x ∷ xs) = (v ≤ x) × AllAbove v xs

abbrev IsSorted : List ℕ → Type 0
IsSorted [] = Unit {0}
IsSorted (x ∷ xs) = AllAbove x xs × IsSorted xs

AllAbove-mono : (v w : ℕ) (xs : List ℕ) → v ≤ w → AllAbove w xs → AllAbove v xs
AllAbove-mono v w [] h a = tt
AllAbove-mono v w (x ∷ xs) h a = (omega arith, AllAbove-mono v w xs h a.1)

insert-AllAbove : (v x : ℕ) (xs : List ℕ) → v ≤ x → AllAbove v xs → AllAbove v (insert leb x xs)
unfolding insert
insert-AllAbove v x [] h a = (h, tt)
insert-AllAbove v x (y ∷ ys) h a = ground (arith, insert-AllAbove v x ys)

insert-IsSorted : (x : ℕ) (xs : List ℕ) → IsSorted xs → IsSorted (insert leb x xs)
unfolding insert
insert-IsSorted x [] s = (tt, tt)
insert-IsSorted x (y ∷ ys) s =
    ground (arith, insert-IsSorted x ys, insert-AllAbove y x ys, AllAbove-mono x y ys)

sort-IsSorted : (xs : List ℕ) → IsSorted (sort leb xs)
unfolding sort
sort-IsSorted [] = tt
sort-IsSorted (x ∷ xs) = insert-IsSorted x (sort leb xs) (sort-IsSorted xs)

-- Sorting keeps the length and these counts.
insert_counts :
    (v x : ℕ) (xs : List ℕ)
    → (count v (insert leb x xs) ≡ count v (x ∷ xs))
      × (below v (insert leb x xs) ≡ below v (x ∷ xs))
      × (above v (insert leb x xs) ≡ above v (x ∷ xs))
      × (length (insert leb x xs) ≡ suc (length xs))
unfolding insert
insert_counts v x [] = (refl, refl, refl, refl)
insert_counts v x (y ∷ ys) = ground (arith, insert_counts v x ys)

sort_counts :
    (v : ℕ) (xs : List ℕ)
    → (count v (sort leb xs) ≡ count v xs)
      × (below v (sort leb xs) ≡ below v xs)
      × (above v (sort leb xs) ≡ above v xs)
      × (length (sort leb xs) ≡ length xs)
unfolding sort
sort_counts v [] = (refl, refl, refl, refl)
sort_counts v (x ∷ xs) = ground (arith, sort_counts v xs, insert_counts v x (sort leb xs))

below_least : (v : ℕ) (xs : List ℕ) → AllAbove v xs → below v xs ≡ 0
below_least v [] a = refl
below_least v (x ∷ xs) a = ground (arith, below_least v xs)

above-le-length : (v : ℕ) (xs : List ℕ) → above v xs ≤ length xs
above-le-length v [] = omega arith
above-le-length v (x ∷ xs) = ground (arith, above-le-length v xs)

AllAbove-get_elem? : (v w i : ℕ) (xs : List ℕ) → AllAbove v xs → get_elem? xs i ≡ some w → v ≤ w
AllAbove-get_elem? v w i [] a e = cc
AllAbove-get_elem? v w zero (x ∷ xs) a e = ground arith
AllAbove-get_elem? v w (suc i) (x ∷ xs) a e = AllAbove-get_elem? v w i xs a.1 e

get_elem?-IsRanked :
    (i v : ℕ) (xs : List ℕ) → IsSorted xs → get_elem? xs i ≡ some v → IsRanked i v xs
get_elem?-IsRanked i v [] s e = cc
get_elem?-IsRanked zero v (x ∷ xs) s e = ground (arith, below_least x xs, above-le-length x xs)
get_elem?-IsRanked (suc i) v (x ∷ xs) s e =
    ground (arith, get_elem?-IsRanked i v xs, AllAbove-get_elem? x v i xs)

sort-IsRanked :
    (i : ℕ) (xs : List ℕ)
    → i < length xs
    → (v : ℕ) × (get_elem? (sort leb xs) i ≡ some v) × IsRanked i v xs
sort-IsRanked i xs h =
    let (v, e) = get_elem?-lt (sort leb xs) i (omega (arith, sort_counts 0 xs)) in
    (
      v,
      e,
      ground (arith, sort_counts v xs, get_elem?-IsRanked i v (sort leb xs) (sort-IsSorted xs) e),
    )

-- With a sum for each run, and at least one run, the accounting ends; the printed throughput is a
-- sum that can stand at `max_index` of the sums in order, the printed number of retired nodes at the
-- last index, and the returned median at half the number of runs.
pub account-IsRanked :
    (max_index total_runs : ℕ) (agg retired_agg : List ℕ)
    → 0 < total_runs
    → max_index < total_runs
    → length agg ≡ total_runs
    → length retired_agg ≡ total_runs
    → (r : Report) × (account leb max_index total_runs agg retired_agg ≡ some r)
      × IsRanked max_index r.max_ops agg
      × IsRanked (total_runs - 1) r.max_retired_nodes retired_agg
      × IsRanked (total_runs / 2) r.median_ops agg
unfolding account
account-IsRanked max_index n agg retired_agg some_run inside la lr =
    let (top_ops, e1, r1) = sort-IsRanked max_index agg (omega arith) in
    let (most, e2, r2) = sort-IsRanked (n - 1) retired_agg (omega arith) in
    let (median, e3, r3) = sort-IsRanked (n / 2) agg (omega arith) in
    (
      record { max_ops = top_ops; max_retired_nodes = most; median_ops = median },
      ground (arith, e1, e2, e3),
      r1,
      r2,
      r3,
    )
