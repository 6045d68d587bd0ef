-- ===== src/IntervalBased/Conflict.antt =====
-- IntervalBasedReclamation.hpp: what `conflict` decides.
use smr_implementations.Prelude.{
  Bool-cases, List, [], arith, false, get_elem?, inl, inr, leb, refl, some, suc, true, zero, ℕ,
  ◌&&◌, ◌<◌, ◌↔◌, ◌∷◌, ◌≡◌, ◌≤◌, ◌⊎◌,
}
use smr_implementations.IntervalBased.Manager.{conflict}

-- `conflict` finds every epoch of the list that lies in the node's lifetime.
pub conflict-lt :
    (reserved : List ℕ) (b r i e : ℕ)
    → conflict reserved b r ≡ false
    → get_elem? reserved i ≡ some e
    → (e < b) ⊎ (r < e)
unfolding conflict
conflict-lt [] b r i e none_in at_i = cc
conflict-lt (x ∷ xs) b r zero e none_in at_i = ground arith
conflict-lt (x ∷ xs) b r (suc i) e none_in at_i = conflict-lt xs b r i e (ground arith) at_i

not_inside : {b r : ℕ} (e : ℕ) → b ≤ e → e ≤ r → (e < b) ⊎ (r < e) → ⊥
not_inside e low high (inl before) = omega arith
not_inside e low high (inr after) = omega arith

-- `conflict` is true exactly when one of the reserved epochs lies between the node's birth and its
-- retirement, both included.
pub conflict_iff :
    (reserved : List ℕ) (b r : ℕ)
    → (conflict reserved b r ≡ true)
      ↔ ((i : ℕ) × (e : ℕ) × (get_elem? reserved i ≡ some e) × (b ≤ e) × (e ≤ r))
unfolding conflict
conflict_iff [] b r = (λ t. cc, λ (i, e, at_i, low, high). cc)
conflict_iff (x ∷ xs) b r = (
  λ t. elim (Bool-cases (leb b x && leb x r)) [
    | inl inside ↦ (0, x, refl, ground arith, ground arith)
    | inr outside ↦
        let (i, e, at_i, low, high) = (conflict_iff xs b r).0 (ground arith) in
        (suc i, e, at_i, low, high)
  ],
  λ (i, e, at_i, low, high). elim (Bool-cases (conflict (x ∷ xs) b r)) [
    | inl found ↦ found
    | inr missed ↦ absurd (not_inside e low high (conflict-lt (x ∷ xs) b r i e missed at_i))
  ],
)
