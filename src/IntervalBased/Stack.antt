-- ===== src/IntervalBased/Stack.antt =====
-- intervalbasedrec/StackIBR.hpp: the class `Stack_IBR`. `fuel` bounds the rounds of a
-- `while (true)`, `sweeps` those of the loop over the retired nodes; `numOfThreads` is `n`.
use smr_implementations.Prelude.{Bool, false, if◌then◌else◌, suc, true, zero, ℕ, ◌==◌}
use smr_implementations.Machine.{
  Prog, alloc, ask, birth, cas, death, free, item, load, next, ret, retry, run, store, top, ◌>>=◌,
  ◌>>◌,
}
use smr_implementations.IntervalBased.Manager.{
  alloc_node, end_op, get_retired_node_count, retire_node, start_op,
}
use smr_implementations.IntervalBased.Manager

-- STACK_EPOCH_FREQUENCY and STACK_RECLAIM_FREQUENCY.
abbrev pub epoch_frequency : ℕ
epoch_frequency = 150

abbrev pub reclaim_frequency : ℕ
reclaim_frequency = 30

-- The constructor of `Node`. Its `item = item` assigns the parameter to itself, so the field keeps
-- what the raw memory held.
unfoldable pub new_node : (item : ℕ) → Prog ℕ
new_node x = do
  p ← ask alloc
  run (store (next p) 0)
  run (store (birth p) 0)
  run (store (death p) 0)
  ret p

unfoldable pub construct : (n : ℕ) → Prog (Unit {0})
construct n = do Manager.construct n; sentinel ← new_node 0; run (store top sentinel)

unfoldable pub push_loop : (fuel node thread : ℕ) → Prog Bool
push_loop zero node thread = retry
push_loop (suc fuel) node thread = do
  temp ← ask (load top)
  now ← ask (load top)
  let again = push_loop fuel node thread
  if temp == now
      then (do
        run (store (next node) temp)
        old ← ask (cas top temp node)
        if old == temp then end_op thread >> ret true else again)
      else again

unfoldable pub push : (fuel item thread : ℕ) → Prog Bool
push fuel x thread = if x == 0 then ret false else do
  fresh ← new_node x
  node ← alloc_node epoch_frequency thread fresh
  start_op thread
  push_loop fuel node thread

-- 0 is `nullptr`.
unfoldable pub pop_loop : (fuel sweeps n thread : ℕ) → Prog ℕ
pop_loop zero sweeps n thread = retry
pop_loop (suc fuel) sweeps n thread = do
  temp ← ask (load top)
  let again = pop_loop fuel sweeps n thread
  if temp == 0 then end_op thread >> ret 0 else do
    now ← ask (load top)
    if now == temp
        then (do
          after ← ask (load (next temp))
          old ← ask (cas top temp after)
          if old == temp
              then (do
                data_item ← ask (load (item temp))
                retire_node sweeps n reclaim_frequency temp thread
                end_op thread
                ret data_item)
              else again)
        else again

unfoldable pub pop : (fuel sweeps n thread : ℕ) → Prog ℕ
pop fuel sweeps n thread = start_op thread >> pop_loop fuel sweeps n thread

unfoldable pub drain : (rounds fuel sweeps n : ℕ) → Prog (Unit {0})
drain zero fuel sweeps n = retry
drain (suc rounds) fuel sweeps n = do
  r ← pop fuel sweeps n 0
  if r == 0 then ret tt else drain rounds fuel sweeps n

-- The destructor. The class of `ibrStack` has none: its retired nodes are not deleted.
unfoldable pub destruct : (rounds fuel sweeps n : ℕ) → Prog (Unit {0})
destruct rounds fuel sweeps n = do drain rounds fuel sweeps n; t ← ask (load top); run (free t)

unfoldable pub get_retired_count_stack : (thread : ℕ) → Prog ℕ
get_retired_count_stack thread = get_retired_node_count thread
