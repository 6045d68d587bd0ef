-- ===== src/HazardEras/Stack.antt =====
-- hazarderas/StackHazardEras.hpp: the class `Stack_HazardEras`. `fuel` bounds the rounds of a
-- `while (true)`, `spins` those of `get_protected`.
use smr_implementations.Prelude.{Bool, false, if◌then◌else◌, suc, true, zero, ℕ, ◌==◌}
use smr_implementations.Machine.{
  Prog, alloc, ask, birth, cas, death, free, item, load, next, ret, retry, run, store, top, ◌>>=◌,
  ◌>>◌,
}
use smr_implementations.HazardEras.Manager.{
  clear, get_era, get_protected, get_retired_node_count, retire_node,
}
use smr_implementations.HazardEras.Manager

-- The constructor of `Node`. Its `item = item` assigns the parameter to itself, so the field keeps
-- what the raw memory held.
unfoldable pub new_node : (item birth_era : ℕ) → Prog ℕ
new_node x birth_era = do
  p ← ask alloc
  run (store (next p) 0)
  run (store (birth p) birth_era)
  run (store (death p) 0)
  ret p

unfoldable pub construct : Prog (Unit {0})
construct = do Manager.construct; sentinel ← new_node 0 1; run (store top sentinel)

unfoldable pub push_loop : (fuel spins node thread : ℕ) → Prog Bool
push_loop zero spins node thread = retry
push_loop (suc fuel) spins node thread = do
  temp ← get_protected spins 0 top thread
  now ← ask (load top)
  let again = push_loop fuel spins node thread
  if temp == now
      then (do
        run (store (next node) temp)
        old ← ask (cas top temp node)
        if old == temp then clear thread >> ret true else again)
      else again

unfoldable pub push : (fuel spins item thread : ℕ) → Prog Bool
push fuel spins x thread =
    if x == 0
    then ret false
    else do era ← get_era; node ← new_node x era; push_loop fuel spins node thread

-- 0 is `nullptr`.
unfoldable pub pop : (fuel spins thread : ℕ) → Prog ℕ
pop zero spins thread = retry
pop (suc fuel) spins thread = do
  temp ← get_protected spins 0 top thread
  let again = pop fuel spins thread
  if temp == 0 then clear thread >> ret 0 else do
    now ← ask (load top)
    if now == temp
        then (do
          after ← ask (load (next temp))
          old ← ask (cas top temp after)
          if old == temp
              then (do
                data_item ← ask (load (item temp))
                retire_node spins temp thread
                clear thread
                ret data_item)
              else again)
        else again

unfoldable pub drain : (rounds fuel spins : ℕ) → Prog (Unit {0})
drain zero fuel spins = retry
drain (suc rounds) fuel spins = do
  r ← pop fuel spins 0
  if r == 0 then ret tt else drain rounds fuel spins

-- The destructor; that of the member `heStack` runs last.
unfoldable pub destruct : (rounds fuel spins : ℕ) → Prog (Unit {0})
destruct rounds fuel spins = do
  drain rounds fuel spins
  t ← ask (load top)
  run (free t)
  Manager.destruct fuel

unfoldable pub get_retired_count_stack : (thread : ℕ) → Prog ℕ
get_retired_count_stack thread = get_retired_node_count thread
