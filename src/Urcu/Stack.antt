-- ===== src/Urcu/Stack.antt =====
-- urcu/StackURCU.hpp: the class `StackURCU`. `fuel` bounds the rounds of a `while (true)`, `spins`
-- those of the wait for a reader; `max_threads` is the argument `n`. `long` counters are kept as
-- their 64-bit patterns. The vector `retired` of `pop` is a local list.
use smr_implementations.Prelude.{
  Bool, List, Option, [], decr, if◌then◌else◌, incr, none, some, suc, true, zero, ℕ, ◌==◌, ◌∷◌,
}
use smr_implementations.Machine.{
  Prog, alloc, ask, cas, for_loop, free, item, load, next, ret, retired_count, retry, run, store,
  top, ◌>>=◌, ◌>>◌,
}
use smr_implementations.Urcu.Manager.{read_lock, read_unlock, synchronize_rcu}
use smr_implementations.Urcu.Manager

unfoldable pub new_node : (item : ℕ) → Prog ℕ
new_node x = do p ← ask alloc; run (store (item p) x); run (store (next p) 0); ret p

unfoldable pub construct : (n : ℕ) → Prog (Unit {0})
construct n = do
  Manager.construct n
  sentinel ← new_node 0
  run (store top sentinel)
  for_loop n 0 λ i. run (store (retired_count i) 0)

unfoldable pub push_loop : (fuel node thread : ℕ) → Prog Bool
push_loop zero node thread = retry
push_loop (suc fuel) node thread = do
  temp ← ask (load top)
  run (store (next node) temp)
  old ← ask (cas top temp node)
  let again = push_loop fuel node thread
  if old == temp then read_unlock thread >> ret true else again

-- Unlike the other stacks, `push` takes a null item.
unfoldable pub push : (fuel item thread : ℕ) → Prog Bool
push fuel x thread = do node ← new_node x; read_lock thread; push_loop fuel node thread

-- The node that the loop has taken off, or none where the stack has run empty. A round that fails
-- its exchange goes on without `readUnlock`.
unfoldable pub pop_loop : (fuel thread : ℕ) → Prog (Option ℕ)
pop_loop zero thread = retry
pop_loop (suc fuel) thread = do
  read_lock thread
  temp ← ask (load top)
  let again = pop_loop fuel thread
  if temp == 0 then read_unlock thread >> ret none else do
    now ← ask (load top)
    if now == temp
        then (do
          after ← ask (load (next temp))
          old ← ask (cas top temp after)
          if old == temp then ret (some temp) else again)
        else read_unlock thread >> again

unfoldable pub delete_nodes : List ℕ → (thread : ℕ) → Prog (Unit {0})
delete_nodes [] thread = ret tt
delete_nodes (p ∷ ps) thread = do
  run (free p)
  c ← ask (load (retired_count thread))
  run (store (retired_count thread) (decr c))
  delete_nodes ps thread

unfoldable pub delete_retired_nodes : (spins n : ℕ) → List ℕ → (thread : ℕ) → Prog (Unit {0})
delete_retired_nodes spins n [] thread = ret tt
delete_retired_nodes spins n (p ∷ ps) thread =
    synchronize_rcu spins n >> delete_nodes (p ∷ ps) thread

-- What `pop` does with the node: 0 is `nullptr`.
unfoldable pub pop_node : (spins n thread : ℕ) → Option ℕ → Prog ℕ
pop_node spins n thread none = ret 0
pop_node spins n thread (some temp) = do
  data_item ← ask (load (item temp))
  c ← ask (load (retired_count thread))
  run (store (retired_count thread) (incr c))
  read_unlock thread
  delete_retired_nodes spins n (temp ∷ []) thread
  ret data_item

unfoldable pub pop : (fuel spins n thread : ℕ) → Prog ℕ
pop fuel spins n thread = pop_loop fuel thread >>= pop_node spins n thread

unfoldable pub drain : (rounds fuel spins n : ℕ) → Prog (Unit {0})
drain zero fuel spins n = retry
drain (suc rounds) fuel spins n = do
  r ← pop fuel spins n 0
  if r == 0 then ret tt else drain rounds fuel spins n

-- The destructor; that of the member `urcu` runs last.
unfoldable pub destruct : (rounds fuel spins n : ℕ) → Prog (Unit {0})
destruct rounds fuel spins n = do
  drain rounds fuel spins n
  t ← ask (load top)
  run (free t)
  Manager.destruct

unfoldable pub get_retired_nodes_count : (thread : ℕ) → Prog ℕ
get_retired_nodes_count thread = ask (load (retired_count thread))
