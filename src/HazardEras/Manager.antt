-- ===== src/HazardEras/Manager.antt =====
-- hazarderas/hazarderas.hpp: the class `hazardEras`. Its `threadCount` is never read.
use smr_implementations.Prelude.{
  Bool, decr, false, if◌then◌else◌, incr, ltb, suc, true, zero, ℕ, ◌+◌, ◌==◌,
}
use smr_implementations.Machine.{
  Loc, Prog, ask, at, birth, clock, death, delete_row, erase, fetch_add, for_loop, free, load,
  max_threads, new_row, push_back, ret, retired_count, retry, run, size, slot, slots_per_thread,
  store, ◌>>=◌, ◌>>◌,
}

abbrev pub empty_era : ℕ
empty_era = 0

-- The initial `globalEraClock{1}`, and the constructor.
unfoldable pub construct : Prog (Unit {0})
construct = do
  run (store clock 1)
  for_loop max_threads 0 λ i. do
    run (new_row i)
    run (store (retired_count i) 0)
    for_loop slots_per_thread 0 λ j. run (store (slot i j) empty_era)

unfoldable pub delete_retired : (fuel i j : ℕ) → Prog (Unit {0})
delete_retired zero i j = retry
delete_retired (suc fuel) i j = do
  s ← ask (size i)
  if ltb j s then (do p ← ask (at i j); run (free p); delete_retired fuel i (j + 1)) else ret tt

-- The destructor.
unfoldable pub destruct : (fuel : ℕ) → Prog (Unit {0})
destruct fuel = for_loop max_threads 0 λ i. do run (delete_row i); delete_retired fuel i 0

unfoldable pub get_era : Prog ℕ
get_era = ask (load clock)

unfoldable pub clear : (thread : ℕ) → Prog (Unit {0})
clear thread = for_loop slots_per_thread 0 λ i. run (store (slot thread i) empty_era)

unfoldable pub get_protected_loop : (fuel index : ℕ) → Loc → (thread prev : ℕ) → Prog ℕ
get_protected_loop zero index atom thread prev = retry
get_protected_loop (suc fuel) index atom thread prev = do
  temp ← ask (load atom)
  curr ← ask (load clock)
  if curr == prev
      then ret temp
      else (do run (store (slot thread index) curr); get_protected_loop fuel index atom thread curr)

unfoldable pub get_protected : (fuel index : ℕ) → Loc → (thread : ℕ) → Prog ℕ
get_protected fuel index atom thread = do
  prev ← ask (load (slot thread index))
  get_protected_loop fuel index atom thread prev

unfoldable pub protect_era_release : (index other thread : ℕ) → Prog (Unit {0})
protect_era_release index other thread = do
  era ← ask (load (slot thread other))
  old ← ask (load (slot thread index))
  if old == era then ret tt else run (store (slot thread index) era)

-- `era == emptyEra || era < item->newEra || era > item->delEra`, read from left to right.
unfoldable pub misses : (era p : ℕ) → Prog Bool
misses era p = if era == empty_era then ret true else do
  b ← ask (load (birth p))
  if ltb era b then ret true else do d ← ask (load (death p)); ret (ltb d era)

-- The inner loop, over the slots of the thread `thread`.
unfoldable pub check_slots : (rounds j p thread : ℕ) → Prog Bool
check_slots zero j p thread = ret true
check_slots (suc rounds) j p thread = do
  era ← ask (load (slot thread j))
  missed ← misses era p
  if missed then check_slots rounds (j + 1) p thread else ret false

-- The outer loop, over `i`: no round uses it, each looks at the same thread.
unfoldable pub check_rows : (rounds p thread : ℕ) → Prog Bool
check_rows zero p thread = ret true
check_rows (suc rounds) p thread = do
  clean ← check_slots slots_per_thread 0 p thread
  if clean then check_rows rounds p thread else ret false

unfoldable pub can_remove_node : (p thread : ℕ) → Prog Bool
can_remove_node p thread = check_rows max_threads p thread

unfoldable pub reclaim : (i p thread : ℕ) → Prog (Unit {0})
reclaim i p thread = do
  run (erase thread i)
  run (free p)
  c ← ask (load (retired_count thread))
  run (store (retired_count thread) (decr c))

unfoldable pub sweep : (fuel i thread : ℕ) → Prog (Unit {0})
sweep zero i thread = retry
sweep (suc fuel) i thread = do
  s ← ask (size thread)
  if ltb i s
      then (do
        p ← ask (at thread i)
        removable ← can_remove_node p thread
        (if removable then reclaim i p thread else ret tt)
        sweep fuel (i + 1) thread)
      else ret tt

unfoldable pub retire_node : (fuel p thread : ℕ) → Prog (Unit {0})
retire_node fuel p thread = do
  curr ← ask (load clock)
  run (store (death p) curr)
  run (push_back thread p)
  c ← ask (load (retired_count thread))
  run (store (retired_count thread) (incr c))
  now ← ask (load clock)
  (if now == curr then run (fetch_add clock 1) else ret tt)
  sweep fuel 0 thread

unfoldable pub get_retired_node_count : (thread : ℕ) → Prog ℕ
get_retired_node_count thread = ask (load (retired_count thread))
