-- ===== src/Urcu/Queue.antt =====
-- urcu/QueueURCU.hpp: the class `QueueURCU`. `fuel` bounds the rounds of a loop, `spins` those of the
-- wait for a reader; `max_threads` is the argument `n`. `long` counters are kept as their 64-bit
-- patterns. The vector `retired` of `dequeue` is a local list.
use smr_implementations.Prelude.{
  Bool, List, Option, [], decr, false, if◌then◌else◌, incr, none, some, suc, true, zero, ℕ, ◌==◌,
  ◌∷◌,
}
use smr_implementations.Machine.{
  Prog, alloc, ask, cas, for_loop, free, head, item, load, next, ret, retired_count, retry, run,
  store, tail, ◌>>=◌, ◌>>◌,
}
use smr_implementations.Urcu.Manager.{read_lock, read_unlock, synchronize_rcu}
use smr_implementations.Urcu.Manager

unfoldable pub new_node : (item : ℕ) → Prog ℕ
new_node x = do p ← ask alloc; run (store (item p) x); run (store (next p) 0); ret p

unfoldable pub construct : (n : ℕ) → Prog (Unit {0})
construct n = do
  Manager.construct n
  sentinel ← new_node 0
  run (store head sentinel)
  run (store tail sentinel)
  for_loop n 0 λ i. run (store (retired_count i) 0)

-- The loop of `enqueue`: the node behind which the new one has been linked. `ptrnull` is the variable
-- of that name, into which a failed exchange writes the pointer that it found.
unfoldable pub enqueue_loop : (fuel node ptrnull thread : ℕ) → Prog ℕ
enqueue_loop zero node ptrnull thread = retry
enqueue_loop (suc fuel) node ptrnull thread = do
  temp ← ask (load tail)
  read_lock thread
  now ← ask (load tail)
  let again = enqueue_loop fuel node
  if temp == now
      then (do
        after ← ask (load (next temp))
        still ← ask (load tail)
        if still == temp
            then (if after == 0
                then (do
                  old ← ask (cas (next temp) ptrnull node)
                  if old == ptrnull then ret temp else again old thread)
                else (do run (cas tail temp after); read_unlock thread; again ptrnull thread))
            else read_unlock thread >> again ptrnull thread)
      else read_unlock thread >> again ptrnull thread

unfoldable pub enqueue : (fuel spins n item thread : ℕ) → Prog Bool
enqueue fuel spins n x thread = if x == 0 then ret false else do
  node ← new_node x
  temp ← enqueue_loop fuel node 0 thread
  run (cas tail temp node)
  read_unlock thread
  synchronize_rcu spins n
  ret true

-- The loop of `dequeue`: the node that it has taken off and the item, or none where the queue is
-- empty. That return, and the rounds that fail after the first test, go without `readUnlock`.
unfoldable pub dequeue_loop : (fuel thread : ℕ) → Prog (Option (ℕ × ℕ))
dequeue_loop zero thread = retry
dequeue_loop (suc fuel) thread = do
  temp1 ← ask (load head)
  read_lock thread
  now ← ask (load head)
  let again = dequeue_loop fuel thread
  if temp1 == now
      then (do
        temp2 ← ask (load tail)
        after ← ask (load (next temp1))
        still ← ask (load head)
        if still == temp1
            then (if after == 0
                then ret none
                else (if temp1 == temp2 then run (cas tail temp2 after) >> again else (do
                  old ← ask (cas head temp1 after)
                  if old == temp1
                      then (do data_item ← ask (load (item after)); ret (some (temp1, data_item)))
                      else again)))
            else again)
      else read_unlock thread >> again

unfoldable pub delete_nodes : List ℕ → (thread : ℕ) → Prog (Unit {0})
delete_nodes [] thread = ret tt
delete_nodes (p ∷ ps) thread = do
  c ← ask (load (retired_count thread))
  run (store (retired_count thread) (decr c))
  run (free p)
  delete_nodes ps thread

unfoldable pub delete_retired_nodes : (spins n : ℕ) → List ℕ → (thread : ℕ) → Prog (Unit {0})
delete_retired_nodes spins n [] thread = ret tt
delete_retired_nodes spins n (p ∷ ps) thread =
    synchronize_rcu spins n >> delete_nodes (p ∷ ps) thread

-- What `dequeue` does with the node: 0 is `nullptr`.
unfoldable pub dequeue_node : (spins n thread : ℕ) → Option (ℕ × ℕ) → Prog ℕ
dequeue_node spins n thread none = ret 0
dequeue_node spins n thread (some (temp1, data_item)) = do
  c ← ask (load (retired_count thread))
  run (store (retired_count thread) (incr c))
  read_unlock thread
  delete_retired_nodes spins n (temp1 ∷ []) thread
  ret data_item

unfoldable pub dequeue : (fuel spins n thread : ℕ) → Prog ℕ
dequeue fuel spins n thread = dequeue_loop fuel thread >>= dequeue_node spins n thread

unfoldable pub drain : (rounds fuel spins n : ℕ) → Prog (Unit {0})
drain zero fuel spins n = retry
drain (suc rounds) fuel spins n = do
  r ← dequeue fuel spins n 0
  if r == 0 then ret tt else drain rounds fuel spins n

-- The destructor; that of the member `urcu` runs last.
unfoldable pub destruct : (rounds fuel spins n : ℕ) → Prog (Unit {0})
destruct rounds fuel spins n = do
  drain rounds fuel spins n
  h ← ask (load head)
  run (free h)
  Manager.destruct

unfoldable pub get_retired_nodes_count : (thread : ℕ) → Prog ℕ
get_retired_nodes_count thread = ask (load (retired_count thread))
