-- ===== src/Machine/Interfered.antt =====
-- Runs of a method among other threads: before each of its actions the others may have changed
-- the memory in any way that keeps a condition `Keeps` true.
use smr_implementations.Prelude.{List, [], arith, inl, inr, some, subst, ℕ, ◌∷◌, ◌≡◌}
use smr_implementations.Machine.{Cmd, Loc, Mem, Prog, act, load, perform, read}
use smr_implementations.Machine.Guarded.{Event, Guarded, History, In}

module _ (allocator : List ℕ → ℕ) (Keeps : Mem → Type 0) where
  -- `Reaches p q h`: begun as `p`, the method has made the actions `h` and goes on as `q`.
  pub data Reaches {A : Type 0} (p : Prog A) : Prog A → History → Type 0 where
    start : Reaches p p []
    next :
        {c : Cmd} {k : ℕ → Prog A} {h : History} (m m' : Mem) (r : ℕ)
        → Keeps m
        → perform allocator c m ≡ some (r, m')
        → Reaches p (act c k) h
        → Reaches p (k r) ((c, r) ∷ h)

  pub Reaches-Guarded :
      {A : Type 0} (P : History → Cmd → Type 0) (Q : A → History → Type 0) {p q : Prog A}
      {h : History}
      → Guarded P p [] Q
      → Reaches p q h
      → Guarded P q h Q
  Reaches-Guarded P Q g start = g
  Reaches-Guarded P Q g (next m m' r keeps e reached) = (Reaches-Guarded P Q g reached).1 r

  -- The answer to a read is what some memory that the condition allows holds.
  load-answer :
      (l : Loc) (m m' : Mem) (r : ℕ) → perform allocator (load l) m ≡ some (r, m') → read m l ≡ r
  unfolding perform
  load-answer l m m' r e = ground arith

  pub Reaches-read :
      {A : Type 0} (l : Loc) (r : ℕ) {p q : Prog A} {h : History}
      → Reaches p q h
      → In (load l, r) h
      → (m : Mem) × Keeps m × (read m l ≡ r)
  Reaches-read l r start i = elim i [ ]
  Reaches-read l r (next {c} m m' r' keeps e reached) (inr i) = Reaches-read l r reached i
  Reaches-read l r (next {c} m m' r' keeps e reached) (inl same) = (
    m,
    keeps,
    load-answer l m m' r (subst (λ (x : Event). perform allocator x.0 m ≡ some (x.1, m')) same e),
  )
