-- ===== src/HazardEras/Queue.antt =====
-- hazarderas/QueueHazardEras.hpp: the class `Queue_HazardEras`. `fuel` bounds the rounds of
-- a loop, `spins` those of `get_protected` and of the
-- loop over the retired nodes.
use smr_implementations.Prelude.{Bool, false, if◌then◌else◌, suc, true, zero, ℕ, ◌==◌}
use smr_implementations.Machine.{
  Prog, alloc, ask, birth, cas, death, free, head, item, load, next, ret, retry, run, store, tail,
  ◌>>=◌, ◌>>◌,
}
use smr_implementations.HazardEras.Manager.{
  clear, get_era, get_protected, get_retired_node_count, retire_node,
}
use smr_implementations.HazardEras.Manager

-- The constructor of `Node`. Its `item = item` assigns the parameter to itself, so the field keeps
-- what the raw memory held.
unfoldable pub new_node : (item birth_era : ℕ) → Prog ℕ
new_node x birth_era = do
  p ← ask alloc
  run (store (next p) 0)
  run (store (birth p) birth_era)
  run (store (death p) 0)
  ret p

unfoldable pub cas_next : (node cmp val : ℕ) → Prog Bool
cas_next node cmp val = do old ← ask (cas (next node) cmp val); ret (old == cmp)

unfoldable pub construct : Prog (Unit {0})
construct = do
  Manager.construct
  sentinel ← new_node 0 1
  run (store head sentinel)
  run (store tail sentinel)

unfoldable pub enqueue_loop : (fuel spins node thread : ℕ) → Prog Bool
enqueue_loop zero spins node thread = retry
enqueue_loop (suc fuel) spins node thread = do
  temp ← get_protected spins 0 tail thread
  now ← ask (load tail)
  let again = enqueue_loop fuel spins node thread
  if temp == now
      then (do
        after ← ask (load (next temp))
        if after == 0
            then (do
              linked ← cas_next temp 0 node
              if linked then (do run (cas tail temp node); clear thread; ret true) else again)
            else run (cas tail temp after) >> again)
      else again

unfoldable pub enqueue : (fuel spins item thread : ℕ) → Prog Bool
enqueue fuel spins x thread =
    if x == 0
    then ret false
    else do era ← get_era; node ← new_node x era; enqueue_loop fuel spins node thread

-- The loop of `dequeue`; 0 is `nullptr`.
unfoldable pub dequeue_loop : (fuel spins thread node : ℕ) → Prog ℕ
dequeue_loop zero spins thread node = retry
dequeue_loop (suc fuel) spins thread node = do
  t ← ask (load tail)
  if node == t then clear thread >> ret 0 else do
    after ← get_protected spins 1 (next node) thread
    old ← ask (cas head node after)
    if old == node
        then (do
          data_item ← ask (load (item after))
          retire_node spins node thread
          clear thread
          ret data_item)
        else (do node' ← get_protected spins 0 head thread; dequeue_loop fuel spins thread node')

unfoldable pub dequeue : (fuel spins thread : ℕ) → Prog ℕ
dequeue fuel spins thread = do
  node ← get_protected spins 0 head thread
  dequeue_loop fuel spins thread node

unfoldable pub drain : (rounds fuel spins : ℕ) → Prog (Unit {0})
drain zero fuel spins = retry
drain (suc rounds) fuel spins = do
  r ← dequeue fuel spins 0
  if r == 0 then ret tt else drain rounds fuel spins

-- The destructor; that of the member `heQueue` runs last.
unfoldable pub destruct : (rounds fuel spins : ℕ) → Prog (Unit {0})
destruct rounds fuel spins = do
  drain rounds fuel spins
  h ← ask (load head)
  run (free h)
  Manager.destruct fuel

unfoldable pub get_retired_count_queue : (thread : ℕ) → Prog ℕ
get_retired_count_queue thread = get_retired_node_count thread
