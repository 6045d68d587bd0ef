-- ===== src/HazardEras/Protect.antt =====
-- hazarderas.hpp under interference: what `get_protected` has done when it returns.
use smr_implementations.Prelude.{
  [], arith, inl, inr, refl, subst, suc, zero, ℕ, ◌==◌, ◌∷◌, ◌≡◌, ◌⊎◌,
}
use smr_implementations.Machine.{Cmd, Loc, clock, load, slot, store}
use smr_implementations.Machine.Guarded.{Guarded, Guarded-if, History, In}
use smr_implementations.HazardEras.Manager.{get_protected, get_protected_loop}

-- The actions that `get_protected` may make: reads of `atom`, of the clock and of the thread's own
-- slot, and stores into that slot of what has been read from the clock.
abbrev pub PublishesEra : (index : ℕ) → Loc → (thread : ℕ) → History → Cmd → Type 0
PublishesEra index atom thread h (load l) = (l ≡ atom) ⊎ ((l ≡ clock) ⊎ (l ≡ slot thread index))
PublishesEra index atom thread h (store l v) = (l ≡ slot thread index) × In (load clock, v) h
PublishesEra index atom thread h c = ⊥

-- That the slot has just been found or made to hold `era`.
abbrev pub SlotHolds : (index thread era : ℕ) → History → Type 0
SlotHolds index thread era [] = ⊥
SlotHolds index thread era (e ∷ h) =
    (e ≡ (load (slot thread index), era)) ⊎ ((a : ℕ) × (e ≡ (store (slot thread index) era, a)))

-- The last three actions: the slot holds an era, then `p` is read from `atom`, and then the clock is
-- read and still stands at that era.
abbrev pub ProtectedInEra : (index : ℕ) → Loc → (thread p : ℕ) → History → Type 0
ProtectedInEra index atom thread p (e ∷ e' ∷ h) =
    (era : ℕ) × (e ≡ (load clock, era)) × (e' ≡ (load atom, p)) × SlotHolds index thread era h
ProtectedInEra index atom thread p h = ⊥

module _ (index : ℕ) (atom : Loc) (thread : ℕ) where
  get_protected_loop-ProtectedInEra :
      (fuel prev : ℕ) (h : History)
      → SlotHolds index thread prev h
      → Guarded
          (PublishesEra index atom thread)
          (get_protected_loop fuel index atom thread prev)
          h
          (λ p h'. ProtectedInEra index atom thread p h')
  unfolding get_protected_loop
  get_protected_loop-ProtectedInEra zero prev h s = tt
  get_protected_loop-ProtectedInEra (suc fuel) prev h s = (
    inl refl,
    λ p. (
      inr (inl refl),
      λ era.
          Guarded-if _ (era == prev) _ _ _ _
            (λ same.
              let e : prev ≡ era = ground arith in
              (era, refl, refl, subst (λ x. SlotHolds index thread x h) e s))
            λ changed.
              ((refl, inl refl), λ a. get_protected_loop-ProtectedInEra fuel era _ (inr (a, refl))),
    ),
  )

  -- Whatever other threads do meanwhile, `get_protected` only reads `atom`, the clock and its own
  -- slot, and only writes eras read from the clock into that slot; when it returns a pointer, its
  -- last three actions are to see an era in the slot or put it there, to read that pointer from
  -- `atom`, and to read that same era from the clock.
  pub get_protected-ProtectedInEra :
      (fuel : ℕ)
      → Guarded
          (PublishesEra index atom thread)
          (get_protected fuel index atom thread)
          []
          (λ p h. ProtectedInEra index atom thread p h)
  unfolding get_protected
  get_protected-ProtectedInEra fuel =
      (inr (inr refl), λ prev. get_protected_loop-ProtectedInEra fuel prev _ (inl refl))
