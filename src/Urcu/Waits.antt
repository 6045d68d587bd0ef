-- ===== src/Urcu/Waits.antt =====
-- The RCU classes under interference: deletions after a wait for all readers.
use smr_implementations.Prelude.{inr, ℕ, ◌==◌, ◌∷◌}
use smr_implementations.Machine.{Cmd, free}
use smr_implementations.Machine.Guarded.{Event, Guarded, Guarded-if, History}
use smr_implementations.Urcu.Manager.{read_lock, synchronize_rcu}
use smr_implementations.Urcu.Grace.{Waited, synchronize_rcu-Waited_after}

-- Every deletion comes after a wait for all readers.
abbrev pub FreesWaited : ℕ → History → Cmd → Type 0
FreesWaited n h (free q) = Waited n h
FreesWaited n h c = Unit

-- With any result and any history.
abbrev pub AnyEnd {ℓ} : {A : Type ℓ} → A → History → Type 0
AnyEnd a h = Unit

pub Waited-later : (n : ℕ) (e : Event) (h : History) → Waited n h → Waited n (e ∷ h)
Waited-later n e h (version, saw, all) =
    (version, inr saw, λ k lt. let (v, seen, above) = all k lt in (v, inr seen, above))

pub read_lock-Guarded :
    (n thread : ℕ) (h : History) → Guarded (FreesWaited n) (read_lock thread) h AnyEnd
unfolding read_lock
read_lock-Guarded n thread h = (
  tt,
  λ rv. (tt, λ r. (tt, λ nrv. Guarded-if _ (rv == nrv) _ _ _ _ (λ e. tt) (λ e. (tt, λ r'. tt)))),
)

pub waits :
    (n spins : ℕ) (h : History)
    → Guarded (FreesWaited n) (synchronize_rcu spins n) h (λ u h'. Waited n h')
waits n spins h =
    synchronize_rcu-Waited_after (FreesWaited n) (λ h' l. tt) (λ h' l e v. tt) spins n h
