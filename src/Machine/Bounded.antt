-- ===== src/Machine/Bounded.antt =====
-- Methods that end within a number of actions, whatever the answers are, and what they then leave in
-- the words that no other thread writes.
use smr_implementations.Prelude.{
  Bool, false, if◌then◌else◌, refl, suc, true, zero, ℕ, ◌∷◌, ◌≡◌, ◌≢◌, ◌⊎◌,
}
use smr_implementations.Machine.{Cmd, Loc, Prog, act, fetch_add, load, ret, retry, store}
use smr_implementations.Machine.Guarded.{Event, History}

-- The program returns after at most `n` actions. Every action `c` that it makes after a history `h`
-- meets `P h c`, and the result meets `Q` with the whole history.
abbrev pub Finishes {ℓ} :
    {A : Type ℓ}
    → (History → Cmd → Type 0)
    → (n : ℕ) → Prog A
    → History
    → (A → History → Type 0)
    → Type 0
Finishes P n (ret a) h Q = Q a h
Finishes P zero (act c k) h Q = ⊥
Finishes P (suc n) (act c k) h Q = P h c × ((r : ℕ) → Finishes P n (k r) ((c, r) ∷ h) Q)
Finishes P n retry h Q = ⊥

pub Finishes-if {ℓ} :
    {A : Type ℓ} (P : History → Cmd → Type 0) (n : ℕ) (b : Bool) (p q : Prog A) (h : History)
    (Q : A → History → Type 0)
    → (b ≡ true → Finishes P n p h Q)
    → (b ≡ false → Finishes P n q h Q)
    → Finishes P n (if b then p else q) h Q
Finishes-if P n true p q h Q yes_case no_case = yes_case refl
Finishes-if P n false p q h Q yes_case no_case = no_case refl

-- The event writes the value to the word, or reads it there.
abbrev pub Says : Loc → ℕ → Event → Type 0
Says l v (load l', r) = (l' ≡ l) × (r ≡ v)
Says l v (store l' x, r) = (l' ≡ l) × (x ≡ v)
Says l v (c, r) = ⊥

-- The event does not write another value to the word, nor read another one there.
abbrev pub Spares : Loc → ℕ → Event → Type 0
Spares l v (load l', r) = (l' ≢ l) ⊎ (r ≡ v)
Spares l v (store l' x, r) = (l' ≢ l) ⊎ (x ≡ v)
Spares l v (fetch_add l' n, r) = l' ≢ l
Spares l v (c, r) = ⊥

-- What the thread itself last wrote to the word, or last read there, is the value.
pub data Holds (l : Loc) (v : ℕ) : History → Type 0 where
  now : {e : Event} {h : History} → Says l v e → Holds l v (e ∷ h)
  since : {e : Event} {h : History} → Spares l v e → Holds l v h → Holds l v (e ∷ h)
