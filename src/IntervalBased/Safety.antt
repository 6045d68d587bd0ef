-- ===== src/IntervalBased/Safety.antt =====
-- IntervalBasedReclamation.hpp under interference: when a node may be deleted.
use smr_implementations.Prelude.{
  List, [], arith, false, get_elem?, inl, inr, ltb, refl, some, subst, suc, zero, ℕ, ◌+◌, ◌<◌, ◌==◌,
  ◌∷◌, ◌≡◌, ◌⊎◌,
}
use smr_implementations.Machine.{
  Cmd, at, birth, death, free, load, remainder, reservation, ret, size,
}
use smr_implementations.Machine.Guarded.{
  Event, Guarded, Guarded-bind, Guarded-if, Guarded-keeps, History, In,
}
use smr_implementations.IntervalBased.Conflict.{conflict-lt}
use smr_implementations.IntervalBased.Manager.{
  conflict, empty_retire_list, reclaim, retire_node, snapshot, sweep,
}

-- For each of the first `n` threads the history has a read of its reservation that was answered by
-- an epoch outside the lifetime that the history has read in the node.
abbrev pub Outlived : (n p : ℕ) → History → Type 0
Outlived n p h =
    (b d : ℕ) × In (load (birth p), b) h
    × In (load (death p), d) h
    × ((i : ℕ) → i < n → (e : ℕ) × In (load (reservation i), e) h × ((e < b) ⊎ (d < e)))

abbrev pub FreesOutlived : ℕ → History → Cmd → Type 0
FreesOutlived n h (free p) = Outlived n p h
FreesOutlived n h c = Unit

-- The list holds what the reservations of the threads from `i` on were read to be.
abbrev Recorded : (i n : ℕ) → List ℕ → History → Type 0
Recorded i n es h =
    (k : ℕ) → k < n → (e : ℕ) × In (load (reservation (i + k)), e) h × (get_elem? es k ≡ some e)

Recorded-keeps :
    (i n : ℕ) (es : List ℕ) (h h' : History)
    → Recorded i n es h
    → ((e : Event) → In e h → In e h')
    → Recorded i n es h'
Recorded-keeps i n es h h' rec kept k lt =
    let (x, seen, found) = rec k lt in (x, kept (load (reservation (i + k)), x) seen, found)

Outlived-later : (n p : ℕ) (e : Event) (h : History) → Outlived n p h → Outlived n p (e ∷ h)
Outlived-later n p e h (b, d, born, died, out) =
    (b, d, inr born, inr died, λ i lt. let (x, seen, far) = out i lt in (x, inr seen, far))

-- What a clear test of `conflict` says of the node.
Outlived-conflict :
    (n p b d : ℕ) (es : List ℕ) (h : History)
    → Recorded 0 n es h
    → conflict es b d ≡ false
    → In (load (birth p), b) h
    → In (load (death p), d) h
    → Outlived n p h
Outlived-conflict n p b d es h rec clear born died = (
  b,
  d,
  born,
  died,
  λ i lt.
      let (x, seen, found) = rec i lt in
      (
        x,
        subst (λ j. In (load (reservation j), x) h) (omega arith) seen,
        conflict-lt es b d i x clear found,
      ),
)

module _ (n : ℕ) where
  snapshot-Recorded :
      (rounds i : ℕ) (h : History)
      → Guarded (FreesOutlived n) (snapshot rounds i) h (λ es h'. Recorded i rounds es h')
  unfolding snapshot
  snapshot-Recorded zero i h = λ k lt. absurd (omega arith)
  snapshot-Recorded (suc rounds) i h = (
    tt,
    λ e.
        Guarded-bind _ (snapshot rounds (i + 1)) _ _ _ _
          (Guarded-keeps _ (snapshot rounds (i + 1)) _ _ (snapshot-Recorded rounds (i + 1) _))
          λ es h' (tail_recorded, kept). elim [
            | zero ↦ λ lt. (
              e,
              subst (λ j. In (load (reservation j), e) h') (omega arith)
                  (kept (load (reservation i), e) (inl refl)),
              refl,
            )
            | suc k ↦ λ lt.
                let (e', seen, found) = tail_recorded k (omega arith) in
                (e', subst (λ j. In (load (reservation j), e') h') (omega arith) seen, found)
          ],
  )

  reclaim-Outlived :
      (i p thread : ℕ) (h : History)
      → Outlived n p h
      → Guarded (FreesOutlived n) (reclaim i p thread) h (λ _ _. Unit)
  unfolding reclaim
  reclaim-Outlived i p thread h out =
      (tt, λ r. (Outlived-later n p _ h out, λ _. (tt, λ s. (tt, λ _. (tt, λ c. (tt, λ _. tt))))))

  sweep-Outlived :
      (fuel : ℕ) (reserved : List ℕ) (i thread : ℕ) (h : History)
      → Recorded 0 n reserved h
      → Guarded (FreesOutlived n) (sweep fuel reserved i thread) h (λ _ _. Unit)
  unfolding sweep
  sweep-Outlived zero reserved i thread h rec = tt
  sweep-Outlived (suc fuel) reserved i thread h rec = (
    tt,
    λ s.
        Guarded-if _ (ltb i s) _ _ _ _
          (λ more. (
            tt,
            λ p. (
              tt,
              λ b. (
                tt,
                λ d.
                    let h4 : History =
                      (load (death p), d)
                      ∷ (load (birth p), b)
                      ∷ (at thread i, p)
                      ∷ (size thread, s)
                      ∷ h in
                    let rec4 : Recorded 0 n reserved h4 =
                      Recorded-keeps 0 n reserved h h4 rec (λ e x. inr (inr (inr (inr x)))) in
                    Guarded-bind _ _ _ h4 (λ _ h'. Unit {0} × ((e : Event) → In e h4 → In e h')) _
                      (Guarded-keeps _ _ h4 (λ _ _. Unit)
                        (Guarded-if _ (conflict reserved b d) (ret tt) _ h4 _ (λ _. tt)
                          λ clear. reclaim-Outlived i p thread h4 (
                            Outlived-conflict n p b d reserved h4 rec4 clear (inr (inl refl))
                              (inl refl))))
                      λ _ h' (_, kept).
                        sweep-Outlived fuel reserved (i + 1) thread h'
                          (Recorded-keeps 0 n reserved h4 h' rec4 kept),
              ),
            ),
          ))
          (λ _. tt),
  )

  remainder-FreesOutlived :
      (a b : ℕ) (h : History) → Guarded (FreesOutlived n) (remainder a b) h (λ _ _. Unit)
  unfolding remainder
  remainder-FreesOutlived a b h = Guarded-if _ (b == 0) _ _ h _ (λ _. (tt, λ _. tt)) (λ _. tt)

  -- Whatever other threads do meanwhile, `retireNode` deletes a node only after it has read, in this
  -- same call, the node's two epochs and the reservation of each of the `numThreads` threads, and
  -- found every reservation before the birth epoch or after the retirement epoch.
  pub retire_node-FreesOutlived :
      (fuel emf p thread : ℕ)
      → Guarded (FreesOutlived n) (retire_node fuel n emf p thread) [] (λ _ _. Unit)
  unfolding retire_node empty_retire_list
  retire_node-FreesOutlived fuel emf p thread =
      Guarded-if _ (p == 0) _ _ _ _ (λ _. tt)
        λ _. (
          tt,
          λ re. (
            tt,
            λ _. (
              tt,
              λ _. (
                tt,
                λ c. (
                  tt,
                  λ _. (
                    tt,
                    λ s.
                        Guarded-bind _ (remainder s emf) _ _ (λ _ _. Unit) _
                          (remainder-FreesOutlived s emf _)
                          λ left h _.
                            Guarded-bind _ _ _ _ (λ _ _. Unit) _
                              (Guarded-if _ (left == 0) _ _ _ _
                                (λ _.
                                  Guarded-bind _ (snapshot n 0) _ _ _ _ (snapshot-Recorded n 0 _)
                                    λ es h' rec. sweep-Outlived fuel es 0 thread h' rec)
                                (λ _. tt))
                              λ _ _ _. (tt, λ s'. (tt, λ _. tt)),
                  ),
                ),
              ),
            ),
          ),
        )
