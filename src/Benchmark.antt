-- ===== src/Benchmark.antt =====
-- Benchmark.cpp, which the four folders have in copies that differ little: what the copies share,
-- with hazardpointer/Benchmark.cpp as the text. `Container` and `SearchList` are what the templates
-- ask of `Q`, `S` and `L`. The numbers that `rand()` gives, how many rounds a thread makes before it
-- sees `quit`, and how the threads take turns are inputs. `element i` is the pointer `elements[i]`.
-- Counters of type `long long` do not wrap here. Times, printing and `delta` are not modelled.
pub mod Draws
mod Examples
pub mod Main
pub mod Ranks
pub mod Schedules
pub mod Accounting
pub mod Calls
pub mod Sets
pub mod Counts
use smr_implementations.Prelude.{
  Bool, List, Option, [], if◌then◌else◌, leb, length, ltb, none, some, suc, zero, ℕ, ◌%◌, ◌*◌, ◌+◌,
  ◌==◌, ◌^◌, ◌∷◌,
}
use smr_implementations.Machine.{Mem, Prog, act, for_loop, ret, retry, undefined, ◌>>=◌, ◌>>◌}
use smr_implementations.Benchmark.Accounting.{Report, account}
use smr_implementations.Machine.Exec.{Run, and_then, exec, fault, ok}
use smr_implementations.Machine.Threads.{join, turns}

-- What `benchmarkQueues` and `benchmarkStacks` ask of a class: `insert` is `enqueue` or `push`,
-- `take` is `dequeue` or `pop`. Arguments are the item and the thread.
pub record Container : Type 0 where
  pub construct : Prog (Unit {0})
  pub insert : ℕ → ℕ → Prog Bool
  pub take : ℕ → Prog ℕ
  pub retired : ℕ → Prog ℕ
  pub destruct : Prog (Unit {0})

-- What `benchmarkLinkedList` asks of a class.
pub record SearchList : Type 0 where
  pub construct : Prog (Unit {0})
  pub add : ℕ → ℕ → Prog Bool
  pub remove_item : ℕ → ℕ → Prog Bool
  pub contains : ℕ → ℕ → Prog Bool
  pub retired : ℕ → Prog ℕ
  pub destruct : Prog (Unit {0})

-- `seed = rand()*total_elements + 1`, in `int`: none where it overflows.
unfoldable pub seed : (total_elements drawn : ℕ) → Option ℕ
seed total_elements drawn =
    let s = drawn * total_elements + 1 in if ltb s (2 ^ 31) then some s else none

-- `ix` and `ratio`: none also where the remainder by `total_elements` is undefined.
abbrev pub Draw : Type 0
Draw = ℕ × ℕ

unfoldable pub draw : (total_elements drawn : ℕ) → Option Draw
unfolding seed
draw total_elements drawn = elim (seed total_elements drawn) [
  | none ↦ none
  | some s ↦ if total_elements == 0 then none else some (s % total_elements, s % 10000)
]

-- Undefined behaviour, after which nothing is known.
abbrev pub overflow : Prog ℕ
overflow = act undefined (λ _. retry)

-- A round of a thread, on what it has drawn: what it adds to `numOps`.
abbrev pub on_draw : Option Draw → (ℕ → ℕ → Prog ℕ) → Prog ℕ
on_draw none body = overflow
on_draw (some (ix, ratio)) body = body ix ratio

-- A removed item is put back, which counts again.
unfoldable pub take_back : Container → (x thread : ℕ) → Prog ℕ
take_back c x thread = do
  got ← c.take thread
  if got == 0 then ret 1 else c.insert x thread >>= λ _. ret 2

-- The round of `benchmarkQueues` in the four folders, and of `benchmarkStacks` in hazarderas and urcu.
unfoldable pub queue_round :
    Container → (update_ratio total_elements : ℕ) → (ℕ → ℕ) → (thread drawn : ℕ) → Prog ℕ
queue_round c update_ratio total_elements element thread drawn =
    on_draw (draw total_elements drawn) λ ix ratio.
      if ltb ratio update_ratio
      then take_back c (element ix) thread
      else c.take thread >>= λ _. ret 1

-- The round of `benchmarkStacks` in hazardpointer and intervalbasedrec.
unfoldable pub stack_round :
    Container → (update_ratio total_elements : ℕ) → (ℕ → ℕ) → (thread drawn : ℕ) → Prog ℕ
stack_round c update_ratio total_elements element thread drawn =
    on_draw (draw total_elements drawn) λ ix ratio.
      if ltb ratio update_ratio
      then (c.insert (element ix) thread >>= λ _. ret 1)
      else take_back c (element ix) thread

unfoldable pub remove_back : SearchList → (x thread : ℕ) → Prog ℕ
remove_back l x thread = do
  removed ← l.remove_item x thread
  if removed then (l.add x thread >>= λ _. ret 2) else ret 1

-- The round of `benchmarkLinkedList` in the four folders.
unfoldable pub list_round :
    SearchList → (update_ratio total_elements : ℕ) → (ℕ → ℕ) → (thread drawn : ℕ) → Prog ℕ
list_round l update_ratio total_elements element thread drawn =
    on_draw (draw total_elements drawn) λ ix ratio.
      if ltb ratio update_ratio
      then remove_back l (element ix) thread
      else (l.contains (element ix) thread >>= λ _. ret 1)

-- `rw_lambda` between `startFlag` and `quit`: a round for each number drawn.
unfoldable pub work : (round : ℕ → Prog ℕ) → (drawn : List ℕ) → (num_ops : ℕ) → Prog ℕ
work round [] num_ops = ret num_ops
work round (r ∷ rs) num_ops = do added ← round r; work round rs (num_ops + added)

-- `for (int i = from; i < from + rounds; i++)`, with what `f(i)` returns.
unfoldable pub collect : (rounds from : ℕ) → (ℕ → Prog ℕ) → Prog (List ℕ)
collect zero i f = ret []
collect (suc n) i f = do x ← f i; xs ← collect n (i + 1) f; ret (x ∷ xs)

-- What one run of a benchmark does with its structure.
pub record Subject : Type 0 where
  pub construct : Prog (Unit {0})
  pub fill : ℕ → Prog (Unit {0})
  pub round : ℕ → ℕ → Prog ℕ
  pub retired : ℕ → Prog ℕ
  pub destruct : Prog (Unit {0})

-- What a run depends on besides: the turns of the threads, and the numbers that each thread draws.
pub record Chance : Type 0 where
  pub schedule : List ℕ
  pub drawn : ℕ → List ℕ

unfoldable pub workers : (rounds from : ℕ) → (ℕ → ℕ → Prog ℕ) → (ℕ → List ℕ) → List (Prog ℕ)
workers zero i round drawn = []
workers (suc n) i round drawn = work (round i) (drawn i) 0 ∷ workers n (i + 1) round drawn

abbrev pub sum : List ℕ → ℕ
sum [] = 0
sum (x ∷ xs) = x + sum xs

module _ (allocator : List ℕ → ℕ) where
  -- One round of `for (int irun ...)`: `ops[tid][irun]` and `retiredNodes[tid][irun]` of all threads.
  -- The vectors of retired nodes of a new structure are empty.
  unfoldable pub one_run :
      Subject → (num_threads total_elements : ℕ) → Chance → Mem → Run (List ℕ × List ℕ)
  one_run s num_threads total_elements chance m =
      let m0 : Mem = record m { retired = λ k. [] } in
      and_then (exec allocator (s.construct >> for_loop total_elements 0 s.fill) m0) λ _ m1.
        and_then (turns allocator chance.schedule (workers num_threads 0 s.round chance.drawn) m1)
          λ pool m2. and_then (join pool m2) λ ops m3.
            and_then (exec allocator (collect num_threads 0 s.retired) m3)
              λ retired m4. and_then (exec allocator s.destruct m4) λ _ m5. ok (ops, retired) m5

  -- All runs, with `agg` and `retiredagg`: the sums over the threads, the second one in 64 bits.
  unfoldable pub all_runs :
      Subject → (num_threads total_elements : ℕ) → List Chance → Mem → Run (List ℕ × List ℕ)
  all_runs s num_threads total_elements [] m = ok ([], []) m
  all_runs s num_threads total_elements (c ∷ cs) m =
      and_then (one_run s num_threads total_elements c m) λ (ops, retired) m1.
        and_then (all_runs s num_threads total_elements cs m1)
          λ (agg, retired_agg) m2. ok (sum ops ∷ agg, (sum retired % 2 ^ 64) ∷ retired_agg) m2

  -- A benchmark of as many runs as there are `chances`. `retired_le` is the order on the type of the
  -- retired counts, `max_index` where `maxops` is read.
  unfoldable pub benchmark :
      Subject
      → (retired_le : ℕ → ℕ → Bool) → (max_index num_threads total_elements : ℕ) → List Chance
      → Mem
      → Run Report
  benchmark s retired_le max_index num_threads total_elements chances m =
      and_then (all_runs s num_threads total_elements chances m) λ (agg, retired_agg) m'.
        elim (account retired_le max_index (length chances) agg retired_agg) [
          | none ↦ fault
          | some r ↦ ok r m'
        ]

-- `long` counts, kept as their 64-bit patterns.
unfoldable pub signed_le : ℕ → ℕ → Bool
signed_le a b = leb ((a + 2 ^ 63) % 2 ^ 64) ((b + 2 ^ 63) % 2 ^ 64)
