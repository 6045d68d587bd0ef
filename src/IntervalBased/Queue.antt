-- ===== src/IntervalBased/Queue.antt =====
-- intervalbasedrec/QueueIBR.hpp: the class `Queue_IBR`. `fuel` bounds the rounds of
-- a loop, `sweeps` those of the loop over the retired nodes; `numOfThreads` is the argument `n`.
use smr_implementations.Prelude.{Bool, false, if◌then◌else◌, suc, true, zero, ℕ, ◌==◌}
use smr_implementations.Machine.{
  Prog, alloc, ask, birth, cas, death, free, head, item, load, next, ret, retry, run, store, tail,
  ◌>>=◌, ◌>>◌,
}
use smr_implementations.IntervalBased.Manager.{
  alloc_node, end_op, get_retired_node_count, retire_node, start_op,
}
use smr_implementations.IntervalBased.Manager

-- QUEUE_EPOCH_FREQUENCY and QUEUE_RECLAIM_FREQUENCY.
abbrev pub epoch_frequency : ℕ
epoch_frequency = 150

abbrev pub reclaim_frequency : ℕ
reclaim_frequency = 30

-- The constructor of `Node`. Its `item = item` assigns the parameter to itself, so the field keeps
-- what the raw memory held.
unfoldable pub new_node : (item : ℕ) → Prog ℕ
new_node x = do
  p ← ask alloc
  run (store (next p) 0)
  run (store (birth p) 0)
  run (store (death p) 0)
  ret p

unfoldable pub cas_next : (node cmp val : ℕ) → Prog Bool
cas_next node cmp val = do old ← ask (cas (next node) cmp val); ret (old == cmp)

unfoldable pub construct : (n : ℕ) → Prog (Unit {0})
construct n = do
  Manager.construct n
  sentinel ← new_node 0
  run (store head sentinel)
  run (store tail sentinel)

unfoldable pub enqueue_loop : (fuel node thread : ℕ) → Prog Bool
enqueue_loop zero node thread = retry
enqueue_loop (suc fuel) node thread = do
  temp ← ask (load tail)
  now ← ask (load tail)
  let again = enqueue_loop fuel node thread
  if temp == now
      then (do
        after ← ask (load (next temp))
        if after == 0
            then (do
              linked ← cas_next temp 0 node
              if linked then (do run (cas tail temp node); end_op thread; ret true) else again)
            else run (cas tail temp after) >> again)
      else again

unfoldable pub enqueue : (fuel item thread : ℕ) → Prog Bool
enqueue fuel x thread = if x == 0 then ret false else do
  fresh ← new_node x
  node ← alloc_node epoch_frequency thread fresh
  start_op thread
  enqueue_loop fuel node thread

-- The loop of `dequeue`; 0 is `nullptr`.
unfoldable pub dequeue_loop : (fuel sweeps n thread node : ℕ) → Prog ℕ
dequeue_loop zero sweeps n thread node = retry
dequeue_loop (suc fuel) sweeps n thread node = do
  t ← ask (load tail)
  if node == t then end_op thread >> ret 0 else do
    after ← ask (load (next node))
    old ← ask (cas head node after)
    if old == node
        then (do
          data_item ← ask (load (item after))
          retire_node sweeps n reclaim_frequency node thread
          end_op thread
          ret data_item)
        else (do node' ← ask (load head); dequeue_loop fuel sweeps n thread node')

unfoldable pub dequeue : (fuel sweeps n thread : ℕ) → Prog ℕ
dequeue fuel sweeps n thread = do
  start_op thread
  node ← ask (load head)
  dequeue_loop fuel sweeps n thread node

unfoldable pub drain : (rounds fuel sweeps n : ℕ) → Prog (Unit {0})
drain zero fuel sweeps n = retry
drain (suc rounds) fuel sweeps n = do
  r ← dequeue fuel sweeps n 0
  if r == 0 then ret tt else drain rounds fuel sweeps n

-- The destructor. The class of `ibrQueue` has none: its retired nodes are not deleted.
unfoldable pub destruct : (rounds fuel sweeps n : ℕ) → Prog (Unit {0})
destruct rounds fuel sweeps n = do drain rounds fuel sweeps n; h ← ask (load head); run (free h)

unfoldable pub get_retired_count_queue : (thread : ℕ) → Prog ℕ
get_retired_count_queue thread = get_retired_node_count thread
