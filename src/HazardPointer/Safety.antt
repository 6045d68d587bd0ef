-- ===== src/HazardPointer/Safety.antt =====
-- hazardpointer.hpp under interference: what `retireNode` and `protect` guarantee whatever the other
-- threads do between two of their actions.
use smr_implementations.Prelude.{
  Bool, List, [], arith, dec_lt, inl, inr, ltb, refl, subst, suc, sym, true, zero, ℕ, ◌+◌, ◌<◌,
  ◌==◌, ◌∙◌, ◌∷◌, ◌≡◌, ◌≢◌, ◌⊎◌,
}
use smr_implementations.Machine.{Cmd, Loc, Prog, act, free, load, read, slot, slots_per_thread}
use smr_implementations.Machine.Guarded.{Event, Guarded, Guarded-bind, Guarded-if, History, In}
use smr_implementations.Machine.Interfered.{Reaches, Reaches-Guarded, Reaches-read}
use smr_implementations.HazardPointer.Manager.{
  reclaim, retire_node, retired_nodes_threshold, scan_slots, scan_threads, sweep,
}

-- The history has a read of `l` that was answered by something else than `p`.
abbrev pub Answered : ℕ → Loc → History → Type 0
Answered p l h = (r : ℕ) × In (load l, r) h × (r ≢ p)

-- The slots before slot `j` of thread `k` have been read, and none held `p`.
abbrev Seen : (k j p : ℕ) → History → Type 0
Seen k j p h =
    (k' j' : ℕ)
    → (k' < k) ⊎ ((k' ≡ k) × (j' < j))
    → j' < slots_per_thread
    → Answered p (slot k' j') h

-- Every slot of the first `n` threads has been read, and none held `p`.
abbrev pub Unprotected : (n p : ℕ) → History → Type 0
Unprotected n p h = (k j : ℕ) → k < n → j < slots_per_thread → Answered p (slot k j) h

-- A node may be deleted only after the slots have been read.
abbrev pub FreesUnprotected : ℕ → History → Cmd → Type 0
FreesUnprotected n h (free p) = Unprotected n p h
FreesUnprotected n h c = Unit

later : (p : ℕ) (l : Loc) (e : Event) (h : History) → Answered p l h → Answered p l (e ∷ h)
later p l e h (r, i, ne) = (r, inr i, ne)

Seen-later : (k j p : ℕ) (e : Event) (h : History) → Seen k j p h → Seen k j p (e ∷ h)
Seen-later k j p e h s k' j' before lt = later p (slot k' j') e h (s k' j' before lt)

Seen-next :
    (k j p r : ℕ) (h : History) → Seen k j p h → r ≢ p → Seen k (j + 1) p ((load (slot k j), r) ∷ h)
Seen-next k j p r h s ne k' j' (inl below) lt = later p _ _ h (s k' j' (inl below) lt)
Seen-next k j p r h s ne k' j' (inr (e, le)) lt = elim (dec_lt j' j) [
  | yes before ↦ later p _ _ h (s k' j' (inr (e, before)) lt)
  | no last ↦ let e' : j ≡ j' = omega arith in (r, inl (cc), ne)
]

Seen-row : (k p : ℕ) (h : History) → Seen k slots_per_thread p h → Seen (k + 1) 0 p h
Seen-row k p h s k' j' (inr (e, le)) lt = absurd (omega arith)
Seen-row k p h s k' j' (inl below) lt = elim (dec_lt k' k) [
  | yes before ↦ s k' j' (inl before) lt
  | no last ↦ s k' j' (inr (omega arith, lt)) lt
]

module _ (n : ℕ) where
  scan_slots-Guarded :
      (rounds j k p : ℕ) (d : Bool) (h : History)
      → j + rounds ≡ slots_per_thread
      → (d ≡ true → Seen k j p h)
      → Guarded
          (FreesUnprotected n)
          (scan_slots rounds j k p d)
          h
          (λ b h'. b ≡ true → Seen (k + 1) 0 p h')
  unfolding scan_slots
  scan_slots-Guarded zero j k p d h e s =
      λ t. Seen-row k p h (subst (λ i. Seen k i p h) (omega arith) (s t))
  scan_slots-Guarded (suc rounds) j k p d h e s = (
    tt,
    λ r.
        Guarded-if _ (r == p) _ _ _ _ (λ hit t. cc)
          λ miss.
            scan_slots-Guarded rounds (j + 1) k p d _ (omega arith)
              (λ t. Seen-next k j p r h (s t) (ground arith)),
  )

  scan_threads-Guarded :
      (rounds k p : ℕ) (d : Bool) (h : History)
      → k + rounds ≡ n
      → (d ≡ true → Seen k 0 p h)
      → Guarded
          (FreesUnprotected n)
          (scan_threads rounds k p d)
          h
          (λ b h'. b ≡ true → Unprotected n p h')
  unfolding scan_threads
  scan_threads-Guarded zero k p d h e s = λ t k' j' below lt. s t k' j' (inl (omega arith)) lt
  scan_threads-Guarded (suc rounds) k p d h e s =
      Guarded-bind _ (scan_slots slots_per_thread 0 k p d) _ h _ _
        (scan_slots-Guarded slots_per_thread 0 k p d h refl s)
        λ b h' s'. scan_threads-Guarded rounds (k + 1) p b h' (omega arith) s'

  reclaim-Guarded :
      (i p thread : ℕ) (h : History)
      → Unprotected n p h
      → Guarded (FreesUnprotected n) (reclaim i p thread) h (λ _ _. Unit)
  unfolding reclaim
  reclaim-Guarded i p thread h u =
      (tt, λ r. (λ k j below lt. later p _ _ h (u k j below lt), λ r. (tt, λ r. (tt, λ r. tt))))

  sweep-Guarded :
      (fuel i : ℕ) (d : Bool) (thread : ℕ) (h : History)
      → Guarded (FreesUnprotected n) (sweep fuel n i d thread) h (λ _ _. Unit)
  unfolding sweep
  sweep-Guarded zero i d thread h = tt
  sweep-Guarded (suc fuel) i d thread h = (
    tt,
    λ s.
        Guarded-if _ (ltb i s) _ _ _ _
          (λ more. (
            tt,
            λ p.
                Guarded-bind _ (scan_threads n 0 p d) _ _ _ _
                  (scan_threads-Guarded n 0 p d _ (omega arith)
                    (λ t k' j' before lt. absurd (omega arith)))
                  λ b h' u.
                    Guarded-bind _ _ _ h' (λ _ _. Unit) _
                      (Guarded-if _ b _ _ _ _ (λ t. reclaim-Guarded i p thread h' (u t)) (λ _. tt))
                      λ _ h'' _. sweep-Guarded fuel (i + 1) b thread h'',
          ))
          (λ _. tt),
  )

  -- Whatever other threads do meanwhile, `retireNode` deletes a node only after it has read, in this
  -- same call, every slot of the first `threadCount` threads and found another pointer in each.
  pub retire_node-FreesUnprotected :
      (fuel p thread : ℕ)
      → Guarded (FreesUnprotected n) (retire_node fuel n p thread) [] (λ _ _. Unit)
  unfolding retire_node
  retire_node-FreesUnprotected fuel p thread = (
    tt,
    λ c. (
      tt,
      λ _. (
        tt,
        λ _. (
          tt,
          λ s.
              Guarded-if _ (ltb s retired_nodes_threshold) _ _ _ _ (λ _. tt)
                λ _. sweep-Guarded fuel 0 true thread _,
        ),
      ),
    ),
  )

-- Whatever other threads do meanwhile: while some slot of one of the first `threadCount` threads
-- holds a pointer, no call of `retireNode` comes to delete it.
pub retire_node-never_frees_protected :
    (allocator : List ℕ → ℕ) (fuel n p thread k j q : ℕ) (rest : ℕ → Prog (Unit {0})) (h : History)
    → k < n
    → j < slots_per_thread
    → ¬ Reaches allocator (λ m. m.slots k j ≡ q) (retire_node fuel n p thread) (act (free q) rest) h
unfolding read
retire_node-never_frees_protected allocator fuel n p thread k j q rest h lt lt' reached =
    let guarded =
      Reaches-Guarded allocator _ _ _ (retire_node-FreesUnprotected n fuel p thread) reached in
    let (r, i, ne) = guarded.0 k j lt lt' in
    let (m, held, e) = Reaches-read allocator _ (slot k j) r reached i in ne (sym e ∙ held)
