-- ===== src/HazardPointer/Stack.antt =====
-- hazardpointer/StackHazardPointer.hpp: the class `Stack_HazardPointer`. `fuel` bounds the rounds
-- of a `while (true)`, `spins` those of `protect`; `numOfThreads` is the argument `n`.
use smr_implementations.Prelude.{
  Bool, Option, false, if◌then◌else◌, none, some, suc, true, zero, ℕ, ◌==◌,
}
use smr_implementations.Machine.{
  Prog, alloc, ask, cas, free, item, load, next, ret, retry, run, store, top, ◌>>=◌, ◌>>◌,
}
use smr_implementations.HazardPointer.Manager.{
  clear, get_retired_count, protect, retire_node, store_hazard_ptr,
}
use smr_implementations.HazardPointer.Manager

-- The constructor of `Node`. Its `item = item` assigns the parameter to itself, so the field keeps
-- what the raw memory held.
unfoldable pub new_node : (item : ℕ) → Prog ℕ
new_node x = do p ← ask alloc; run (store (next p) 0); ret p

unfoldable pub construct : Prog (Unit {0})
construct = do Manager.construct; sentinel ← new_node 0; run (store top sentinel)

unfoldable pub push_loop : (fuel node thread : ℕ) → Prog Bool
push_loop zero node thread = retry
push_loop (suc fuel) node thread = do
  t ← ask (load top)
  temp ← store_hazard_ptr 0 t thread
  now ← ask (load top)
  let again = push_loop fuel node thread
  if temp == now
      then (do
        run (store (next node) temp)
        old ← ask (cas top temp node)
        if old == temp then clear thread >> ret true else again)
      else again

unfoldable pub push : (fuel item thread : ℕ) → Prog Bool
push fuel x thread = if x == 0 then ret false else do node ← new_node x; push_loop fuel node thread

-- The loop of `pop`: the node that it has taken off, or none where the stack has run empty.
unfoldable pub pop_loop : (fuel spins thread : ℕ) → Prog (Option ℕ)
pop_loop zero spins thread = retry
pop_loop (suc fuel) spins thread = do
  temp ← protect spins 0 top thread
  let again = pop_loop fuel spins thread
  if temp == 0 then clear thread >> ret none else do
    now ← ask (load top)
    if now == temp
        then (do
          after ← ask (load (next temp))
          old ← ask (cas top temp after)
          if old == temp then ret (some temp) else again)
        else again

-- What `pop` does with the node: 0 is `nullptr`.
unfoldable pub pop_node : (fuel n thread : ℕ) → Option ℕ → Prog ℕ
pop_node fuel n thread none = ret 0
pop_node fuel n thread (some temp) = do
  data_item ← ask (load (item temp))
  retire_node fuel n temp thread
  clear thread
  ret data_item

unfoldable pub pop : (fuel spins n thread : ℕ) → Prog ℕ
pop fuel spins n thread = pop_loop fuel spins thread >>= pop_node fuel n thread

unfoldable pub drain : (rounds fuel spins n : ℕ) → Prog (Unit {0})
drain zero fuel spins n = retry
drain (suc rounds) fuel spins n = do
  r ← pop fuel spins n 0
  if r == 0 then ret tt else drain rounds fuel spins n

-- The destructor; that of the member `hpStack` runs last.
unfoldable pub destruct : (rounds fuel spins n : ℕ) → Prog (Unit {0})
destruct rounds fuel spins n = do
  drain rounds fuel spins n
  t ← ask (load top)
  run (free t)
  Manager.destruct fuel

unfoldable pub get_retired_count_stack : (thread : ℕ) → Prog ℕ
get_retired_count_stack thread = get_retired_count thread
