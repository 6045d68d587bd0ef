-- ===== src/Benchmark/Counts.antt =====
-- Benchmark.cpp: what the threads count in `numOps`, however they take turns.
use smr_implementations.Prelude.{
  Bool, List, Option, [], arith, false, if◌then◌else◌, length, ltb, none, refl, some, true, ℕ, ◌*◌,
  ◌+◌, ◌==◌, ◌∷◌, ◌≡◌, ◌≤◌,
}
use smr_implementations.Machine.{Prog, act, ret, retry, ◌>>=◌}
use smr_implementations.Benchmark.{
  Container, Draw, SearchList, draw, list_round, on_draw, queue_round, remove_back, stack_round,
  take_back, work,
}
use smr_implementations.Benchmark.Draws.{Fits, draw-Fits}

-- Every result of the program meets `Q`, whatever its actions are answered.
abbrev pub Yields : {A : Type 0} → (A → Type 0) → Prog A → Type 0
Yields Q (ret a) = Q a
Yields Q (act c k) = (r : ℕ) → Yields Q (k r)
Yields Q retry = Unit

module _ {A : Type 0} where
  Yields-any : (p : Prog A) → Yields (λ _. Unit) p
  Yields-any (ret a) = tt
  Yields-any (act c k) = λ r. Yields-any (k r)
  Yields-any retry = tt

  Yields-bind :
      {B : Type 0} (P : A → Type 0) (Q : B → Type 0) (p : Prog A) (f : A → Prog B)
      → Yields P p
      → ((a : A) → P a → Yields Q (f a))
      → Yields Q (p >>= f)
  Yields-bind P Q (ret a) f y rest = rest a y
  Yields-bind P Q (act c k) f y rest = λ r. Yields-bind P Q (k r) f (y r) rest
  Yields-bind P Q retry f y rest = tt

  Yields-mono : {P Q : A → Type 0} (p : Prog A) → ((a : A) → P a → Q a) → Yields P p → Yields Q p
  Yields-mono (ret a) h y = h a y
  Yields-mono (act c k) h y = λ r. Yields-mono (k r) h (y r)
  Yields-mono retry h y = tt

-- One operation, or two.
abbrev IsCount : ℕ → Type 0
IsCount a = (1 ≤ a) × (a ≤ 2)

Yields-if :
    (b : Bool) (p q : Prog ℕ)
    → Yields IsCount p
    → Yields IsCount q
    → Yields IsCount (if b then p else q)
Yields-if true p q y z = y
Yields-if false p q y z = z

-- What a round adds, where what it draws is defined.
abbrev pub Added : (n drawn added : ℕ) → Type 0
Added n drawn added = IsCount added × Fits n drawn

Yields-on_draw :
    (n drawn : ℕ) (d : Option Draw) (body : ℕ → ℕ → Prog ℕ)
    → draw n drawn ≡ d
    → ((ix ratio : ℕ) → Yields IsCount (body ix ratio))
    → Yields (Added n drawn) (on_draw d body)
Yields-on_draw n drawn none body e y = λ r. tt
Yields-on_draw n drawn (some (ix, ratio)) body e y =
    Yields-mono (body ix ratio) (λ added h. (h, draw-Fits n drawn e)) (y ix ratio)

take_back-Yields : (c : Container) (x thread : ℕ) → Yields IsCount (take_back c x thread)
unfolding take_back
take_back-Yields c x thread =
    Yields-bind _ IsCount (c.take thread) _ (Yields-any (c.take thread)) λ got _.
      Yields-if (got == 0) (ret 1) _ (omega arith) (
        Yields-bind _ IsCount (c.insert x thread) _ (Yields-any (c.insert x thread))
          λ _ _. omega arith)

remove_back-Yields : (l : SearchList) (x thread : ℕ) → Yields IsCount (remove_back l x thread)
unfolding remove_back
remove_back-Yields l x thread =
    Yields-bind _ IsCount (l.remove_item x thread) _ (Yields-any (l.remove_item x thread))
      λ removed _.
        Yields-if removed _ (ret 1)
          (Yields-bind _ IsCount (l.add x thread) _ (Yields-any (l.add x thread))
            λ _ _. omega arith)
          (omega arith)

-- The benchmarks, by the class that they measure: their rounds are the three of Benchmark.
pub data Measured : Type 0 where
  as_queue as_stack : Container → Measured
  as_list : SearchList → Measured

abbrev pub round_of :
    Measured → (update_ratio total_elements : ℕ) → (ℕ → ℕ) → (thread drawn : ℕ) → Prog ℕ
round_of (as_queue c) = queue_round c
round_of (as_stack c) = stack_round c
round_of (as_list l) = list_round l

-- A round of each of the benchmarks counts one or two, and is defined only where its draw is.
round_of-Yields :
    (b : Measured) (ratio n : ℕ) (element : ℕ → ℕ) (thread drawn : ℕ)
    → Yields (Added n drawn) (round_of b ratio n element thread drawn)
unfolding queue_round stack_round list_round
round_of-Yields (as_queue c) ratio n element t drawn =
    Yields-on_draw n drawn (draw n drawn) _ refl λ ix r.
      Yields-if (ltb r ratio) _ _ (take_back-Yields c (element ix) t)
        (Yields-bind _ IsCount (c.take t) _ (Yields-any (c.take t)) λ _ _. omega arith)
round_of-Yields (as_stack c) ratio n element t drawn =
    Yields-on_draw n drawn (draw n drawn) _ refl λ ix r.
      Yields-if (ltb r ratio) _ _
        (Yields-bind _ IsCount (c.insert (element ix) t) _ (Yields-any (c.insert (element ix) t))
          λ _ _. omega arith)
        (take_back-Yields c (element ix) t)
round_of-Yields (as_list l) ratio n element t drawn =
    Yields-on_draw n drawn (draw n drawn) _ refl λ ix r.
      Yields-if (ltb r ratio) _ _ (remove_back-Yields l (element ix) t) (
        Yields-bind _ IsCount (l.contains (element ix) t) _ (Yields-any (l.contains (element ix) t))
          λ _ _. omega arith)

-- The bounds on what a thread has counted from `start` on.
abbrev pub Between : (drawn : List ℕ) (start ops : ℕ) → Type 0
Between drawn start ops = (start + length drawn ≤ ops) × (ops ≤ start + 2 * length drawn)

abbrev pub AllFit : (n : ℕ) → (drawn : List ℕ) → Type 0
AllFit n [] = Unit {0}
AllFit n (r ∷ rs) = Fits n r × AllFit n rs

pub work-Yields :
    (b : Measured) (ratio n : ℕ) (element : ℕ → ℕ) (thread : ℕ) (drawn : List ℕ) (start : ℕ)
    → Yields
        (λ ops. Between drawn start ops × AllFit n drawn)
        (work (round_of b ratio n element thread) drawn start)
unfolding work
work-Yields b ratio n element t [] start = omega arith
work-Yields b ratio n element t (r ∷ rs) start =
    Yields-bind (Added n r) _ (round_of b ratio n element t r) _
      (round_of-Yields b ratio n element t r)
      λ added (h, fits).
        Yields-mono (work (round_of b ratio n element t) rs (start + added))
          (λ ops (between, all_fit). (omega arith, (fits, all_fit)))
          (work-Yields b ratio n element t rs (start + added))
