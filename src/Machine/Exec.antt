-- ===== src/Machine/Exec.antt =====
-- Methods run alone on a memory: the result and the memory after it.
use smr_implementations.Prelude.{List, ap, none, refl, some, ℕ, ◌∙◌, ◌≡◌}
use smr_implementations.Machine.{Answer, Cmd, Mem, Prog, act, perform, ret, retry, ◌>>=◌}

-- `fault` is undefined behaviour, `out_of_fuel` a loop that was given too few rounds.
pub data Run {ℓ} (A : Type ℓ) : Type ℓ where
  ok : A → Mem → Run A
  fault : Run A
  out_of_fuel : Run A

module _ {ℓ κ} {A : Type ℓ} {B : Type κ} where
  abbrev pub and_then : Run A → (A → Mem → Run B) → Run B
  and_then (ok a m) k = k a m
  and_then fault k = fault
  and_then out_of_fuel k = out_of_fuel

-- What follows an action, on its answer.
abbrev pub answer {ℓ} : {A : Type ℓ} → Answer → (ℕ → Mem → Run A) → Run A
answer none k = fault
answer (some (r, m)) k = k r m

answer-and_then {ℓ κ} :
    {A : Type ℓ} {B : Type κ} (o : Answer) (k : ℕ → Mem → Run A) (k' : ℕ → Mem → Run B)
    (f : A → Mem → Run B)
    → ((r : ℕ) (m : Mem) → k' r m ≡ and_then (k r m) f)
    → answer o k' ≡ and_then (answer o k) f
answer-and_then none k k' f h = refl
answer-and_then (some (r, m)) k k' f h = h r m

module _ (allocator : List ℕ → ℕ) where
  unfoldable pub exec {ℓ} : {A : Type ℓ} → Prog A → Mem → Run A
  exec (ret a) m = ok a m
  exec (act c k) m = answer (perform allocator c m) (λ r m'. exec (k r) m')
  exec retry m = out_of_fuel

  pub exec-act {ℓ} :
      {A : Type ℓ} (c : Cmd) (k : ℕ → Prog A) (m m' : Mem) (r : ℕ)
      → perform allocator c m ≡ some (r, m')
      → exec (act c k) m ≡ exec (k r) m'
  unfolding exec
  exec-act c k m m' r e = rw e

  pub exec-bind {ℓ κ} :
      {A : Type ℓ} {B : Type κ} (p : Prog A) (f : A → Prog B) (m : Mem)
      → exec (p >>= f) m ≡ and_then (exec p m) (λ a. exec (f a))
  unfolding exec
  exec-bind (ret a) f m = refl
  exec-bind (act c k) f m =
      answer-and_then (perform allocator c m) _ _ _ (λ r m'. exec-bind (k r) f m')
  exec-bind retry f m = refl

  pub exec-then {ℓ κ} :
      {A : Type ℓ} {B : Type κ} (p : Prog A) (f : A → Prog B) (m : Mem) {m' : Mem} {a : A}
      → exec p m ≡ ok a m'
      → exec (p >>= f) m ≡ exec (f a) m'
  exec-then p f m e = exec-bind p f m ∙ ap (λ r. and_then r (λ a. exec (f a))) e

-- A run that ends in `ok`, with a postcondition.
pub data Returns {ℓ κ} {A : Type ℓ} (P : A → Mem → Type κ) : Run A → Type (ℓ ⊔ κ) where
  returns : {a : A} {m : Mem} → P a m → Returns P (ok a m)

pub mono {ℓ κ} :
    {A : Type ℓ} {P Q : A → Mem → Type κ} {r : Run A}
    → Returns P r
    → ((a : A) (m : Mem) → P a m → Q a m)
    → Returns Q r
mono (returns p) weaken = returns (weaken _ _ p)

pub Returns-bind {ℓ κ} :
    {A B : Type ℓ} (allocator : List ℕ → ℕ) (p : Prog A) (f : A → Prog B) (m : Mem)
    (P : A → Mem → Type κ) (Q : B → Mem → Type κ)
    → Returns P (exec allocator p m)
    → ((a : A) (m' : Mem) → P a m' → Returns Q (exec allocator (f a) m'))
    → Returns Q (exec allocator (p >>= f) m)
Returns-bind {A} {B} allocator p f m P Q first rest =
    rw (exec-bind allocator p f m) (on_result (exec allocator p m) first)
  where
    on_result : (r : Run A) → Returns P r → Returns Q (and_then r (λ a. exec allocator (f a)))
    on_result _ (returns h) = rest _ _ h
