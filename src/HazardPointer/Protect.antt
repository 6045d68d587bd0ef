-- ===== src/HazardPointer/Protect.antt =====
-- hazardpointer.hpp under interference: what `protect` has done when it returns.
use smr_implementations.Prelude.{[], arith, inl, inr, refl, suc, zero, ℕ, ◌==◌, ◌∙◌, ◌∷◌, ◌≡◌, ◌⊎◌}
use smr_implementations.Machine.{Cmd, Loc, load, slot, store}
use smr_implementations.Machine.Guarded.{Guarded, Guarded-if, History, In}
use smr_implementations.HazardPointer.Manager.{protect, protect_loop}

-- The actions that `protect` may make: reads of `atom`, and stores of what it has just read there
-- into the thread's own slot.
abbrev pub Publishes : (index : ℕ) → Loc → (thread : ℕ) → History → Cmd → Type 0
Publishes index atom thread h (load l) = l ≡ atom
Publishes index atom thread h (store l v) = (l ≡ slot thread index) × In (load atom, v) h
Publishes index atom thread h c = ⊥

-- The last two actions: `r` was put into the slot, and then `atom` was read and still held `r`.
abbrev pub Validated : (index : ℕ) → Loc → (thread r : ℕ) → History → Type 0
Validated index atom thread r [] = ⊥
Validated index atom thread r (e ∷ []) = ⊥
Validated index atom thread r (e ∷ e' ∷ h) =
    (e ≡ (load atom, r)) × ((a : ℕ) × (e' ≡ (store (slot thread index) r, a)))

-- What the loop knows of the pointer `n` of its last round.
abbrev Stored : (index thread n : ℕ) → History → Type 0
Stored index thread n [] = n ≡ 0
Stored index thread n (e ∷ h) = (n ≡ 0) ⊎ ((a : ℕ) × (e ≡ (store (slot thread index) n, a)))

module _ (index : ℕ) (atom : Loc) (thread : ℕ) where
  Stored-Validated :
      (n r : ℕ) (h : History)
      → r ≡ n
      → Stored index thread n h
      → (r ≡ 0) ⊎ Validated index atom thread r ((load atom, r) ∷ h)
  Stored-Validated n r [] e s = inl (e ∙ s)
  Stored-Validated n r (x ∷ h) e (inl s) = inl (e ∙ s)
  Stored-Validated n r (x ∷ h) e (inr (a, s)) = inr (refl, (a, rw e s))

  protect_loop-Validated :
      (fuel n : ℕ) (h : History)
      → Stored index thread n h
      → Guarded
          (Publishes index atom thread)
          (protect_loop fuel index atom thread n)
          h
          (λ r h'. (r ≡ 0) ⊎ Validated index atom thread r h')
  unfolding protect_loop
  protect_loop-Validated zero n h s = tt
  protect_loop-Validated (suc fuel) n h s = (
    refl,
    λ r.
        Guarded-if _ (r == n) _ _ _ _ (λ same. Stored-Validated n r h (ground arith) s)
          λ changed. ((refl, inl refl), λ a. protect_loop-Validated fuel r _ (inr (a, refl))),
  )

  -- Whatever other threads do meanwhile, `protect` only reads `atom` and only writes the thread's
  -- slot `index`; when it returns a pointer other than null, its last two actions are to store that
  -- pointer in the slot and then to read it once more from `atom`.
  pub protect-Validated :
      (fuel : ℕ)
      → Guarded
          (Publishes index atom thread)
          (protect fuel index atom thread)
          []
          (λ r h. (r ≡ 0) ⊎ Validated index atom thread r h)
  unfolding protect
  protect-Validated fuel = protect_loop-Validated fuel 0 [] refl
