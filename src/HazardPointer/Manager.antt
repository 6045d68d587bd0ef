-- ===== src/HazardPointer/Manager.antt =====
-- hazardpointer/hazardpointer.hpp: the class `hazardPointers`. `threadCount` is an argument `n` of
-- the methods that read it.
use smr_implementations.Prelude.{
  Bool, decr, false, if◌then◌else◌, incr, ltb, suc, true, zero, ℕ, ◌+◌, ◌==◌,
}
use smr_implementations.Machine.{
  Loc, Prog, ask, at, delete_row, erase, for_loop, free, load, max_threads, new_row, push_back, ret,
  retired_count, retry, run, size, slot, slots_per_thread, store, ◌>>=◌, ◌>>◌,
}

-- The constructor.
unfoldable pub construct : Prog (Unit {0})
construct = for_loop max_threads 0 λ i. do
  run (new_row i)
  run (store (retired_count i) 0)
  for_loop slots_per_thread 0 λ j. run (store (slot i j) 0)

unfoldable pub delete_retired : (fuel i j : ℕ) → Prog (Unit {0})
delete_retired zero i j = retry
delete_retired (suc fuel) i j = do
  s ← ask (size i)
  if ltb j s then (do p ← ask (at i j); run (free p); delete_retired fuel i (j + 1)) else ret tt

-- The destructor.
unfoldable pub destruct : (fuel : ℕ) → Prog (Unit {0})
destruct fuel = for_loop max_threads 0 λ i. do run (delete_row i); delete_retired fuel i 0

unfoldable pub clear : (thread : ℕ) → Prog (Unit {0})
clear thread = for_loop slots_per_thread 0 λ i. run (store (slot thread i) 0)

unfoldable pub store_hazard_ptr : (index p thread : ℕ) → Prog ℕ
store_hazard_ptr index p thread = do run (store (slot thread index) p); ret p

-- `n` is the pointer that the last round stored.
unfoldable pub protect_loop : (fuel index : ℕ) → Loc → (thread n : ℕ) → Prog ℕ
protect_loop zero index atom thread n = retry
protect_loop (suc fuel) index atom thread n = do
  r ← ask (load atom)
  if r == n
      then ret r
      else (do run (store (slot thread index) r); protect_loop fuel index atom thread r)

unfoldable pub protect : (fuel index : ℕ) → Loc → (thread : ℕ) → Prog ℕ
protect fuel index atom thread = protect_loop fuel index atom thread 0

-- `delete_node` after the loop over `j` for one thread `k`, which stops at the first hit.
unfoldable pub scan_slots : (rounds j k p : ℕ) → (delete_node : Bool) → Prog Bool
scan_slots zero j k p delete_node = ret delete_node
scan_slots (suc rounds) j k p delete_node = do
  h ← ask (load (slot k j))
  if h == p then ret false else scan_slots rounds (j + 1) k p delete_node

unfoldable pub scan_threads : (rounds k p : ℕ) → (delete_node : Bool) → Prog Bool
scan_threads zero k p delete_node = ret delete_node
scan_threads (suc rounds) k p delete_node = do
  d ← scan_slots slots_per_thread 0 k p delete_node
  scan_threads rounds (k + 1) p d

unfoldable pub reclaim : (i p thread : ℕ) → Prog (Unit {0})
reclaim i p thread = do
  run (erase thread i)
  run (free p)
  c ← ask (load (retired_count thread))
  run (store (retired_count thread) (decr c))

-- The loop over the retired nodes. Nothing sets `delete_node` to true again, and the index moves on
-- also where an element has been erased.
unfoldable pub sweep : (fuel n i : ℕ) → (delete_node : Bool) → (thread : ℕ) → Prog (Unit {0})
sweep zero n i delete_node thread = retry
sweep (suc fuel) n i delete_node thread = do
  s ← ask (size thread)
  if ltb i s
      then (do
        p ← ask (at thread i)
        d ← scan_threads n 0 p delete_node
        (if d then reclaim i p thread else ret tt)
        sweep fuel n (i + 1) d thread)
      else ret tt

-- RETIRED_NODES_THRESHOLD.
abbrev pub retired_nodes_threshold : ℕ
retired_nodes_threshold = 0

unfoldable pub retire_node : (fuel n p thread : ℕ) → Prog (Unit {0})
retire_node fuel n p thread = do
  c ← ask (load (retired_count thread))
  run (store (retired_count thread) (incr c))
  run (push_back thread p)
  s ← ask (size thread)
  if ltb s retired_nodes_threshold then ret tt else sweep fuel n 0 true thread

unfoldable pub get_retired_count : (thread : ℕ) → Prog ℕ
get_retired_count thread = ask (load (retired_count thread))
