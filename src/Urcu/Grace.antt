-- ===== src/Urcu/Grace.antt =====
-- URCU.hpp under interference: the grace period of `synchronizeRCU`.
use smr_implementations.Prelude.{
  List, [], arith, dec_lt, inl, inr, leb, refl, subst, suc, zero, ℕ, ◌+◌, ◌<◌, ◌≡◌, ◌≤◌,
}
use smr_implementations.Machine.{Cmd, Loc, cas, clock, for_loop, load, read, reservation, ret}
use smr_implementations.Machine.Guarded.{
  Guarded, Guarded-bind, Guarded-if, Guarded-keeps, Guarded-mono, History, In,
}
use smr_implementations.Machine.Interfered.{Reaches, Reaches-Guarded, Reaches-read}
use smr_implementations.Urcu.Manager.{synchronize_rcu, wait_reader}

-- The history has a read of thread `i`'s version that was answered by more than `version`.
abbrev pub Passed : (version i : ℕ) → History → Type 0
Passed version i h = (v : ℕ) × In (load (reservation i), v) h × (version < v)

-- A reached of `synchronizeRCU` for `n` threads read the clock, and then saw each thread pass it.
abbrev pub Waited : (n : ℕ) → History → Type 0
Waited n h = (version : ℕ) × In (load clock, version) h × ((i : ℕ) → i < n → Passed version i h)

abbrev pub AnyAction : History → Cmd → Type 0
AnyAction h c = Unit

-- `P` allows loads and exchanges.
module _ (P : History → Cmd → Type 0) (loads : (h : History) (l : Loc) → P h (load l))
    (swaps : (h : History) (l : Loc) (e v : ℕ) → P h (cas l e v)) where
  wait_reader-Passed :
      (fuel version i : ℕ) (h : History)
      → Guarded P (wait_reader fuel version i) h (λ _ h'. Passed version i h')
  unfolding wait_reader
  wait_reader-Passed zero version i h = tt
  wait_reader-Passed (suc fuel) version i h = (
    loads h (reservation i),
    λ v.
        Guarded-if _ (leb v version) _ _ _ _ (λ _. wait_reader-Passed fuel version i _)
          λ passed. (v, inl refl, ground arith),
  )

  -- Every thread from `i` on is waited for, and what has been seen of the threads before stays seen.
  wait_readers-Passed :
      (rounds i fuel version : ℕ) (h : History)
      → ((k : ℕ) → k < i → Passed version k h)
      → In (load clock, version) h
      → Guarded P
          (for_loop rounds i (wait_reader fuel version))
          h
          (λ _ h'. In (load clock, version) h' × ((k : ℕ) → k < i + rounds → Passed version k h'))
  unfolding for_loop
  wait_readers-Passed zero i fuel version h before saw = (saw, λ k lt. before k (omega arith))
  wait_readers-Passed (suc rounds) i fuel version h before saw =
      Guarded-bind P (wait_reader fuel version i) _ h _ _
        (Guarded-keeps P (wait_reader fuel version i) h _ (wait_reader-Passed fuel version i h))
        λ _ h' (passed, kept).
          Guarded-mono P (for_loop rounds (i + 1) (wait_reader fuel version)) h' _ _
            (wait_readers-Passed rounds (i + 1) fuel version h'
              (λ k lt. elim (dec_lt k i) [
                | yes earlier ↦
                    let (v, seen, above) = before k earlier in
                    (v, kept (load (reservation k), v) seen, above)
                | no last ↦ let e : i ≡ k = omega arith in subst (λ k. Passed version k h') e passed
              ])
              (kept (load clock, version) saw))
            λ _ h'' (saw', all). (saw', λ k lt. all k (omega arith))

  -- When `synchronizeRCU` returns it has waited, whatever has been done before.
  pub synchronize_rcu-Waited_after :
      (fuel n : ℕ) (h : History) → Guarded P (synchronize_rcu fuel n) h (λ _ h'. Waited n h')
  unfolding synchronize_rcu
  synchronize_rcu-Waited_after fuel n h = (
    loads h clock,
    λ version. (
      swaps _ clock version _,
      λ old.
          Guarded-mono P (for_loop n 0 (wait_reader fuel version)) _ _ _
            (wait_readers-Passed n 0 fuel version _ (λ k lt. absurd (omega arith)) (inr (inl refl)))
            λ _ h' (saw, all). (version, saw, λ k lt. all k (omega arith)),
    ),
  )

-- Whatever other threads do meanwhile, when `synchronizeRCU` returns it has read the updater's
-- version, and it has seen every thread's version above the one that it read.
pub synchronize_rcu-Waited :
    (fuel n : ℕ) → Guarded AnyAction (synchronize_rcu fuel n) [] (λ _ h. Waited n h)
synchronize_rcu-Waited fuel n =
    synchronize_rcu-Waited_after AnyAction (λ h l. tt) (λ h l e v. tt) fuel n []

-- A reader that stays in its critical section blocks every updater: while thread `k`'s version
-- stays at `v` and the updater's version is at least `v`, `synchronizeRCU` does not return.
pub synchronize_rcu-blocked :
    (allocator : List ℕ → ℕ) (fuel n k v : ℕ) (h : History)
    → k < n
    → ¬ Reaches allocator
        (λ m. (m.reserved k ≡ v) × (v ≤ m.clock_word))
        (synchronize_rcu fuel n)
        (ret tt)
        h
unfolding read
synchronize_rcu-blocked allocator fuel n k v h lt reached =
    let (version, at_start, all) =
      Reaches-Guarded allocator _ _ _ (synchronize_rcu-Waited fuel n) reached in
    let (v', seen, above) = all k lt in
    let (m, (_, held), e) = Reaches-read allocator _ clock version reached at_start in
    let (m', (stays, _), e') = Reaches-read allocator _ (reservation k) v' reached seen in
    omega arith
