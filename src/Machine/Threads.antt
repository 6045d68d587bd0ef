-- ===== src/Machine/Threads.antt =====
-- Threads that take turns on one memory, in the order that a schedule gives: one action a turn.
use smr_implementations.Prelude.{List, [], suc, zero, ℕ, ◌∷◌}
use smr_implementations.Machine.{Mem, Prog, act, perform, ret, retry}
use smr_implementations.Machine.Exec.{Run, and_then, answer, ok, out_of_fuel}

module _ (allocator : List ℕ → ℕ) {A : Type 0} where
  -- A thread that has returned stays as it is.
  unfoldable pub turn : Prog A → Mem → Run (Prog A)
  turn (ret a) m = ok (ret a) m
  turn (act c k) m = answer (perform allocator c m) (λ r m'. ok (k r) m')
  turn retry m = out_of_fuel

  -- A turn of the thread with an index; one that there is not does nothing.
  unfoldable pub turn_of : ℕ → List (Prog A) → Mem → Run (List (Prog A))
  turn_of i [] m = ok [] m
  turn_of zero (p ∷ ps) m = and_then (turn p m) (λ p' m'. ok (p' ∷ ps) m')
  turn_of (suc i) (p ∷ ps) m = and_then (turn_of i ps m) (λ ps' m'. ok (p ∷ ps') m')

  unfoldable pub turns : (schedule : List ℕ) → List (Prog A) → Mem → Run (List (Prog A))
  turns [] ps m = ok ps m
  turns (i ∷ is) ps m = and_then (turn_of i ps m) (turns is)

-- The results of threads that have all returned.
unfoldable pub join : {A : Type 0} → List (Prog A) → Mem → Run (List A)
join [] m = ok [] m
join (ret a ∷ ps) m = and_then (join ps m) (λ rs m'. ok (a ∷ rs) m')
join (act c k ∷ ps) m = out_of_fuel
join (retry ∷ ps) m = out_of_fuel
