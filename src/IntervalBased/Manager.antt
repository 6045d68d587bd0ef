-- ===== src/IntervalBased/Manager.antt =====
-- intervalbasedrec/IntervalBasedReclamation.hpp: the class `IntervalBasedReclamation`. `numThreads`,
-- `epochFreq` and `emptyFreq` are arguments `n`, `epf` and `emf` of the methods that read them.
use smr_implementations.Prelude.{
  Bool, List, [], decr, false, if◌then◌else◌, incr, leb, ltb, suc, true, uint64_max, zero, ℕ, ◌&&◌,
  ◌+◌, ◌==◌, ◌∷◌,
}
use smr_implementations.Machine.{
  Prog, alloc_stat, ask, at, birth, clock, death, erase, fetch_add, for_loop, free, load,
  max_threads, new_reservations, push_back, remainder, reservation, ret, retire_stat, retired_count,
  retry, run, size, store, ◌>>=◌, ◌>>◌,
}

-- The initial `globalEpoch{0}`, the member array `reservations`, and the constructor.
unfoldable pub construct : (n : ℕ) → Prog (Unit {0})
construct n = do
  run (store clock 0)
  run (new_reservations max_threads)
  for_loop n 0 λ i. do
    run (store (reservation i) uint64_max)
    run (store (alloc_stat i) 0)
    run (store (retire_stat i) 0)
    run (store (retired_count i) 0)

unfoldable pub get_global_epoch : Prog ℕ
get_global_epoch = ask (load clock)

unfoldable pub start_op : (thread : ℕ) → Prog (Unit {0})
start_op thread = do e ← ask (load clock); run (store (reservation thread) e)

unfoldable pub end_op : (thread : ℕ) → Prog (Unit {0})
end_op thread = run (store (reservation thread) uint64_max)

unfoldable pub alloc_node : (epf thread p : ℕ) → Prog ℕ
alloc_node epf thread p = do
  a ← ask (load (alloc_stat thread))
  run (store (alloc_stat thread) (incr a))
  a' ← ask (load (alloc_stat thread))
  left ← remainder a' epf
  (if left == 0 then run (fetch_add clock 1) else ret tt)
  e ← get_global_epoch
  run (store (birth p) e)
  ret p

-- The loop over `reservEpoch`, which holds one epoch for each thread.
unfoldable pub conflict : List ℕ → (birth_epoch retire_epoch : ℕ) → Bool
conflict [] b r = false
conflict (e ∷ es) b r = if leb b e && leb e r then true else conflict es b r

-- The copy of `reservations` into `reservEpoch`.
unfoldable pub snapshot : (rounds i : ℕ) → Prog (List ℕ)
snapshot zero i = ret []
snapshot (suc rounds) i = do
  e ← ask (load (reservation i))
  es ← snapshot rounds (i + 1)
  ret (e ∷ es)

unfoldable pub reclaim : (i p thread : ℕ) → Prog (Unit {0})
reclaim i p thread = do
  run (erase thread i)
  run (free p)
  s ← ask (load (retire_stat thread))
  run (store (retire_stat thread) (decr s))
  c ← ask (load (retired_count thread))
  run (store (retired_count thread) (decr c))

unfoldable pub sweep : (fuel : ℕ) → (reserved : List ℕ) → (i thread : ℕ) → Prog (Unit {0})
sweep zero reserved i thread = retry
sweep (suc fuel) reserved i thread = do
  s ← ask (size thread)
  if ltb i s
      then (do
        p ← ask (at thread i)
        b ← ask (load (birth p))
        d ← ask (load (death p))
        (if conflict reserved b d then ret tt else reclaim i p thread)
        sweep fuel reserved (i + 1) thread)
      else ret tt

unfoldable pub empty_retire_list : (fuel n thread : ℕ) → Prog (Unit {0})
empty_retire_list fuel n thread = do reserved ← snapshot n 0; sweep fuel reserved 0 thread

unfoldable pub retire_node : (fuel n emf p thread : ℕ) → Prog (Unit {0})
retire_node fuel n emf p thread = if p == 0 then ret tt else do
  re ← ask (load clock)
  run (store (death p) re)
  run (push_back thread p)
  c ← ask (load (retired_count thread))
  run (store (retired_count thread) (incr c))
  s ← ask (load (retire_stat thread))
  left ← remainder s emf
  (if left == 0 then empty_retire_list fuel n thread else ret tt)
  s' ← ask (load (retire_stat thread))
  run (store (retire_stat thread) (incr s'))

unfoldable pub get_retired_node_count : (thread : ℕ) → Prog ℕ
get_retired_node_count thread = ask (load (retired_count thread))
