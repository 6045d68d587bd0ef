-- ===== src/Machine/Guarded.antt =====
-- What a method does whatever other threads do meanwhile: every answer is possible for every
-- action. A history is the list of the actions made so far, with their answers, latest first.
use smr_implementations.Prelude.{
  Bool, List, [], false, if◌then◌else◌, inr, refl, true, ℕ, ◌∷◌, ◌≡◌, ◌⊎◌,
}
use smr_implementations.Machine.{Cmd, Prog, act, ret, retry, ◌>>=◌}

abbrev pub Event : Type 0
Event = Cmd × ℕ

abbrev pub History : Type 0
History = List Event

-- That an event is in a history.
abbrev pub In : Event → History → Type 0
In e [] = ⊥
In e (x ∷ h) = (x ≡ e) ⊎ In e h

-- Every action `c` that the program makes after a history `h` meets `P h c`, and every result
-- meets `Q` with the whole history.
abbrev pub Guarded {ℓ} :
    {A : Type ℓ} → (History → Cmd → Type 0) → Prog A → History → (A → History → Type 0) → Type 0
Guarded P (ret a) h Q = Q a h
Guarded P (act c k) h Q = P h c × ((r : ℕ) → Guarded P (k r) ((c, r) ∷ h) Q)
Guarded P retry h Q = Unit

module _ (P : History → Cmd → Type 0) where
  pub Guarded-bind {ℓ κ} :
      {A : Type ℓ} {B : Type κ} (p : Prog A) (f : A → Prog B) (h : History)
      (Q : A → History → Type 0) (R : B → History → Type 0)
      → Guarded P p h Q
      → ((a : A) (h' : History) → Q a h' → Guarded P (f a) h' R)
      → Guarded P (p >>= f) h R
  Guarded-bind (ret a) f h Q R g rest = rest a h g
  Guarded-bind (act c k) f h Q R g rest =
      (g.0, λ r. Guarded-bind (k r) f ((c, r) ∷ h) Q R (g.1 r) rest)
  Guarded-bind retry f h Q R g rest = tt

  pub Guarded-if {ℓ} :
      {A : Type ℓ} (b : Bool) (p q : Prog A) (h : History) (Q : A → History → Type 0)
      → (b ≡ true → Guarded P p h Q)
      → (b ≡ false → Guarded P q h Q)
      → Guarded P (if b then p else q) h Q
  Guarded-if true p q h Q yes_case no_case = yes_case refl
  Guarded-if false p q h Q yes_case no_case = no_case refl

  pub Guarded-mono {ℓ} :
      {A : Type ℓ} (p : Prog A) (h : History) (Q R : A → History → Type 0)
      → Guarded P p h Q
      → ((a : A) (h' : History) → Q a h' → R a h')
      → Guarded P p h R
  Guarded-mono (ret a) h Q R g weaken = weaken a h g
  Guarded-mono (act c k) h Q R g weaken =
      (g.0, λ r. Guarded-mono (k r) ((c, r) ∷ h) Q R (g.1 r) weaken)
  Guarded-mono retry h Q R g weaken = tt

  -- What is in the history at the start is in it at the end.
  pub Guarded-keeps {ℓ} :
      {A : Type ℓ} (p : Prog A) (h : History) (Q : A → History → Type 0)
      → Guarded P p h Q
      → Guarded P p h (λ a h'. Q a h' × ((e : Event) → In e h → In e h'))
  Guarded-keeps (ret a) h Q g = (g, λ e i. i)
  Guarded-keeps (act c k) h Q g = (
    g.0,
    λ r.
        Guarded-mono (k r) ((c, r) ∷ h) _ _ (Guarded-keeps (k r) ((c, r) ∷ h) Q (g.1 r))
          λ a h' (q, kept). (q, λ e i. kept e (inr i)),
  )
  Guarded-keeps retry h Q g = tt
