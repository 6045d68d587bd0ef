-- ===== src/Benchmark/Schedules.antt =====
-- Benchmark.cpp: the counts of the threads of one run, for every schedule.
use smr_implementations.Prelude.{List, [], none, some, subst, suc, zero, ℕ, ◌+◌, ◌∷◌, ◌≡◌, arith}
use smr_implementations.Machine.{Answer, Mem, Prog, act, for_loop, perform, ret, retry, ◌>>◌}
use smr_implementations.Machine.Exec.{Run, and_then, answer, exec, fault, ok, out_of_fuel}
use smr_implementations.Machine.Threads.{join, turn, turn_of, turns}
use smr_implementations.Benchmark.{Chance, Subject, collect, one_run, workers}
use smr_implementations.Benchmark.Counts.{AllFit, Between, Measured, Yields, round_of, work-Yields}

-- A result, if there is one, meets `P`.
data Ensures {A : Type 0} (P : A → Type 0) : Run A → Type 0 where
  ends : {a : A} {m : Mem} → P a → Ensures P (ok a m)
  faults : Ensures P fault
  starves : Ensures P out_of_fuel

module _ {A B : Type 0} (P : A → Type 0) (Q : B → Type 0) where
  Ensures-and_then :
      {r : Run A} (k : A → Mem → Run B)
      → Ensures P r
      → ((a : A) (m : Mem) → P a → Ensures Q (k a m))
      → Ensures Q (and_then r k)
  Ensures-and_then k (ends h) rest = rest _ _ h
  Ensures-and_then k faults rest = faults
  Ensures-and_then k starves rest = starves

Ensures-any : {A : Type 0} (r : Run A) → Ensures (λ _. Unit {0}) r
Ensures-any (ok a m) = ends tt
Ensures-any fault = faults
Ensures-any out_of_fuel = starves

-- The `k` threads of a pool, the first one with index `i`, yield what `Q` says of each.
abbrev PoolYields : (ℕ → ℕ → Type 0) → (i k : ℕ) → List (Prog ℕ) → Type 0
PoolYields Q i zero [] = Unit {0}
PoolYields Q i zero (p ∷ ps) = ⊥
PoolYields Q i (suc k) [] = ⊥
PoolYields Q i (suc k) (p ∷ ps) = Yields (Q i) p × PoolYields Q (i + 1) k ps

-- There are `k` counts, the first one of the thread `i`, and each is what `Q` says.
abbrev pub AllCounts : (ℕ → ℕ → Type 0) → (i k : ℕ) → List ℕ → Type 0
AllCounts Q i zero [] = Unit {0}
AllCounts Q i zero (n ∷ ns) = ⊥
AllCounts Q i (suc k) [] = ⊥
AllCounts Q i (suc k) (n ∷ ns) = Q i n × AllCounts Q (i + 1) k ns

-- What a thread has counted at the end of a run, and that its draws fit.
abbrev pub Counted : (total_elements : ℕ) (drawn : ℕ → List ℕ) (thread ops : ℕ) → Type 0
Counted n drawn thread ops = Between (drawn thread) 0 ops × AllFit n (drawn thread)

module _ (allocator : List ℕ → ℕ) where
  answer-Ensures :
      (Q : ℕ → Type 0) (o : Answer) (k : ℕ → Prog ℕ)
      → ((r : ℕ) → Yields Q (k r))
      → Ensures (Yields Q) (answer o (λ r m'. ok (k r) m'))
  answer-Ensures Q none k y = faults
  answer-Ensures Q (some (r, m)) k y = ends (y r)

  turn-Ensures :
      (Q : ℕ → Type 0) (p : Prog ℕ) (m : Mem) → Yields Q p → Ensures (Yields Q) (turn allocator p m)
  unfolding turn
  turn-Ensures Q (ret a) m y = ends y
  turn-Ensures Q (act c k) m y = answer-Ensures Q (perform allocator c m) k y
  turn-Ensures Q retry m y = starves

  turn_of-Ensures :
      (Q : ℕ → ℕ → Type 0) (j i k : ℕ) (ps : List (Prog ℕ)) (m : Mem)
      → PoolYields Q i k ps
      → Ensures (PoolYields Q i k) (turn_of allocator j ps m)
  unfolding turn_of
  turn_of-Ensures Q j i k [] m y = ends y
  turn_of-Ensures Q j i zero (p ∷ ps) m y = absurd y
  turn_of-Ensures Q zero i (suc k) (p ∷ ps) m y =
      Ensures-and_then (Yields (Q i)) (PoolYields Q i (suc k)) _ (turn-Ensures (Q i) p m y.0)
        (λ p' m' z. ends (z, y.1))
  turn_of-Ensures Q (suc j) i (suc k) (p ∷ ps) m y =
      Ensures-and_then (PoolYields Q (i + 1) k) (PoolYields Q i (suc k)) _
        (turn_of-Ensures Q j (i + 1) k ps m y.1) (λ ps' m' z. ends (y.0, z))

  turns-Ensures :
      (Q : ℕ → ℕ → Type 0) (schedule : List ℕ) (k : ℕ) (ps : List (Prog ℕ)) (m : Mem)
      → PoolYields Q 0 k ps
      → Ensures (PoolYields Q 0 k) (turns allocator schedule ps m)
  unfolding turns
  turns-Ensures Q [] k ps m y = ends y
  turns-Ensures Q (j ∷ js) k ps m y =
      Ensures-and_then (PoolYields Q 0 k) (PoolYields Q 0 k) _ (turn_of-Ensures Q j 0 k ps m y)
        (λ ps' m' z. turns-Ensures Q js k ps' m' z)

join-Ensures :
    (Q : ℕ → ℕ → Type 0) (i k : ℕ) (ps : List (Prog ℕ)) (m : Mem)
    → PoolYields Q i k ps
    → Ensures (AllCounts Q i k) (join ps m)
unfolding join
join-Ensures Q i zero [] m y = ends tt
join-Ensures Q i (suc k) [] m y = absurd y
join-Ensures Q i zero (p ∷ ps) m y = absurd y
join-Ensures Q i (suc k) (ret a ∷ ps) m y =
    Ensures-and_then (AllCounts Q (i + 1) k) (AllCounts Q i (suc k)) _
      (join-Ensures Q (i + 1) k ps m y.1) (λ rs m' z. ends (y.0, z))
join-Ensures Q i (suc k) (act c f ∷ ps) m y = starves
join-Ensures Q i (suc k) (retry ∷ ps) m y = starves

workers-PoolYields :
    (b : Measured) (ratio n : ℕ) (element : ℕ → ℕ) (rounds i : ℕ) (drawn : ℕ → List ℕ)
    → PoolYields (Counted n drawn) i rounds (workers rounds i (round_of b ratio n element) drawn)
unfolding workers
workers-PoolYields b ratio n element zero i drawn = tt
workers-PoolYields b ratio n element (suc rounds) i drawn = (
  work-Yields b ratio n element i (drawn i) 0,
  workers-PoolYields b ratio n element rounds (i + 1) drawn,
)

-- Each thread of a run that ends has counted what it should.
one_run-Ensures :
    (allocator : List ℕ → ℕ) (s : Subject) (b : Measured) (ratio num_threads total : ℕ)
    (element : ℕ → ℕ) (chance : Chance) (m : Mem)
    → Ensures
        (λ counts. AllCounts (Counted total chance.drawn) 0 num_threads counts.0)
        (one_run allocator
          (record s { round = round_of b ratio total element })
          num_threads
          total
          chance
          m)
unfolding one_run
one_run-Ensures allocator s b ratio n total element chance m =
    let Q : ℕ → ℕ → Type 0 = Counted total chance.drawn in
    let Counts : List ℕ × List ℕ → Type 0 = λ counts. AllCounts Q 0 n counts.0 in
    Ensures-and_then (λ _. Unit) Counts _
      (Ensures-any
        (exec allocator (s.construct >> for_loop total 0 s.fill) (record m { retired = λ k. [] })))
      λ _ m1 _.
        Ensures-and_then (PoolYields Q 0 n) Counts _
          (turns-Ensures allocator Q chance.schedule n _ m1
            (workers-PoolYields b ratio total element n 0 chance.drawn))
          λ pool m2 z.
            Ensures-and_then (AllCounts Q 0 n) Counts _ (join-Ensures Q 0 n pool m2 z)
              λ ops m3 done.
                Ensures-and_then (λ _. Unit) Counts _
                  (Ensures-any (exec allocator (collect n 0 s.retired) m3))
                  λ retired m4 _.
                    Ensures-and_then (λ _. Unit) Counts _
                      (Ensures-any (exec allocator s.destruct m4)) λ _ m5 _. ends done

-- What is ensured of a run holds of its result.
Ensures-ok :
    {A : Type 0} (P : A → Type 0) (r : Run A) (a : A) (m : Mem) → Ensures P r → r ≡ ok a m → P a
Ensures-ok P r a m (ends {a = b} h) e = let same : b ≡ a = cc in subst P same h
Ensures-ok P r a m faults e = absurd (ground arith)
Ensures-ok P r a m starves e = absurd (ground arith)

-- Where a run of a benchmark ends, whatever class it measures and in whatever order its threads took
-- turns: there is a count for each thread; it is at least the number of rounds that the thread made
-- and at most twice that; and no number that a thread drew made the product of `seed` overflow.
pub one_run-AllCounts :
    (allocator : List ℕ → ℕ) (s : Subject) (b : Measured) (ratio num_threads total : ℕ)
    (element : ℕ → ℕ) (chance : Chance) (m m' : Mem) (ops retired : List ℕ)
    → one_run allocator
        (record s { round = round_of b ratio total element })
        num_threads
        total
        chance
        m
      ≡ ok (ops, retired) m'
    → AllCounts (Counted total chance.drawn) 0 num_threads ops
one_run-AllCounts allocator s b ratio n total element chance m m' ops retired e =
    Ensures-ok (λ counts. AllCounts (Counted total chance.drawn) 0 n counts.0) _ (ops, retired) m'
      (one_run-Ensures allocator s b ratio n total element chance m) e
