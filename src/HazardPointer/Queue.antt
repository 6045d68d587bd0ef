-- ===== src/HazardPointer/Queue.antt =====
-- hazardpointer/QueueHazardPointer.hpp: the class `Queue_HazardPointer`. `fuel` bounds the rounds of
-- a loop, `spins` those of `protect`; `numOfThreads` is the argument `n`.
use smr_implementations.Prelude.{Bool, false, if◌then◌else◌, suc, true, zero, ℕ, ◌==◌}
use smr_implementations.Machine.{
  Prog, alloc, ask, cas, free, head, item, load, next, ret, retry, run, store, tail, ◌>>=◌, ◌>>◌,
}
use smr_implementations.HazardPointer.Manager.{
  clear, get_retired_count, protect, retire_node, store_hazard_ptr,
}
use smr_implementations.HazardPointer.Manager

-- The constructor of `Node`. Its `item = item` assigns the parameter to itself, so the field keeps
-- what the raw memory held.
unfoldable pub new_node : (item : ℕ) → Prog ℕ
new_node x = do p ← ask alloc; run (store (next p) 0); ret p

unfoldable pub cas_next : (node cmp val : ℕ) → Prog Bool
cas_next node cmp val = do old ← ask (cas (next node) cmp val); ret (old == cmp)

unfoldable pub construct : Prog (Unit {0})
construct = do
  Manager.construct
  sentinel ← new_node 0
  run (store head sentinel)
  run (store tail sentinel)

unfoldable pub enqueue_loop : (fuel node thread : ℕ) → Prog Bool
enqueue_loop zero node thread = retry
enqueue_loop (suc fuel) node thread = do
  t ← ask (load tail)
  temp ← store_hazard_ptr 0 t thread
  now ← ask (load tail)
  let again = enqueue_loop fuel node thread
  if temp == now
      then (do
        after ← ask (load (next temp))
        if after == 0
            then (do
              linked ← cas_next temp 0 node
              if linked then (do run (cas tail temp node); clear thread; ret true) else again)
            else run (cas tail temp after) >> again)
      else again

unfoldable pub enqueue : (fuel item thread : ℕ) → Prog Bool
enqueue fuel x thread =
    if x == 0 then ret false else do node ← new_node x; enqueue_loop fuel node thread

-- The loop of `dequeue`; 0 is `nullptr`.
unfoldable pub dequeue_loop : (fuel spins n thread node : ℕ) → Prog ℕ
dequeue_loop zero spins n thread node = retry
dequeue_loop (suc fuel) spins n thread node = do
  t ← ask (load tail)
  if node == t then clear thread >> ret 0 else do
    after ← protect spins 1 (next node) thread
    old ← ask (cas head node after)
    if old == node
        then (do
          data_item ← ask (load (item after))
          clear thread
          retire_node spins n node thread
          ret data_item)
        else (do node' ← protect spins 0 head thread; dequeue_loop fuel spins n thread node')

unfoldable pub dequeue : (fuel spins n thread : ℕ) → Prog ℕ
dequeue fuel spins n thread = do
  node ← protect spins 0 head thread
  dequeue_loop fuel spins n thread node

unfoldable pub drain : (rounds fuel spins n : ℕ) → Prog (Unit {0})
drain zero fuel spins n = retry
drain (suc rounds) fuel spins n = do
  r ← dequeue fuel spins n 0
  if r == 0 then ret tt else drain rounds fuel spins n

-- The destructor; that of the member `hpQueue` runs last.
unfoldable pub destruct : (rounds fuel spins n : ℕ) → Prog (Unit {0})
destruct rounds fuel spins n = do
  drain rounds fuel spins n
  h ← ask (load head)
  run (free h)
  Manager.destruct fuel

unfoldable pub get_retired_count_queue : (thread : ℕ) → Prog ℕ
get_retired_count_queue thread = get_retired_count thread
