-- ===== src/Urcu/LinkedList.antt =====
-- urcu/LinkedListURCU.hpp: the class `LinkedListURCU`. A marked pointer is an odd number. `less` and
-- `same` are `<` and `==` of the template's type `T`, on the objects that two keys point at; a key is
-- kept in the field `item`. `rounds` bounds the jumps to `try_again` and the rounds of `add` and
-- `remove`, `steps` the nodes of one walk, `spins` the wait for a reader; `max_threads` is `n`. The
-- vector `retired` of a method is a list, to which `find` appends. `long` counters are kept as their
-- 64-bit patterns.
use smr_implementations.Prelude.{
  Bool, List, [], decr, false, if◌then◌else◌, incr, not, suc, true, zero, ℕ, ◌%◌, ◌++◌, ◌+◌, ◌-◌,
  ◌==◌, ◌∷◌,
}
use smr_implementations.Machine.{
  Loc, Prog, alloc, ask, cas, for_loop, free, head, item, load, next, ret, retired_count, retry,
  run, store, tail, ◌>>=◌, ◌>>◌,
}
use smr_implementations.Urcu.Manager.{read_lock, read_unlock, synchronize_rcu}
use smr_implementations.Urcu.Manager

unfoldable pub new_node : (key : ℕ) → Prog ℕ
new_node x = do p ← ask alloc; run (store (item p) x); run (store (next p) 0); ret p

unfoldable pub is_marked : ℕ → Bool
is_marked node = node % 2 == 1

unfoldable pub get_marked : ℕ → ℕ
get_marked node = node - node % 2 + 1

unfoldable pub get_unmarked : ℕ → ℕ
get_unmarked node = node - node % 2

unfoldable pub construct : (n : ℕ) → Prog (Unit {0})
construct n = do
  Manager.construct n
  first ← new_node 0
  run (store head first)
  last ← new_node 0
  run (store tail last)
  h ← ask (load head)
  t ← ask (load tail)
  run (store (next h) t)
  for_loop n 0 λ i. run (store (retired_count i) 0)

-- The loop of the destructor, and what it does after the loop.
unfoldable pub delete_chain : (fuel pred node : ℕ) → Prog (Unit {0})
delete_chain zero pred node = retry
delete_chain (suc fuel) pred node =
    if node == 0
    then run (free pred)
    else do run (free pred); node' ← ask (load (next node)); delete_chain fuel node node'

-- The destructor; that of the member `urcu` runs last.
unfoldable pub destruct : (fuel : ℕ) → Prog (Unit {0})
destruct fuel = do
  pred ← ask (load head)
  node ← ask (load (next pred))
  delete_chain fuel pred node
  Manager.destruct

unfoldable pub delete_nodes : List ℕ → (thread : ℕ) → Prog (Unit {0})
delete_nodes [] thread = ret tt
delete_nodes (p ∷ ps) thread = do
  c ← ask (load (retired_count thread))
  run (store (retired_count thread) (decr c))
  run (free p)
  delete_nodes ps thread

unfoldable pub delete_retired : (spins n : ℕ) → List ℕ → (thread : ℕ) → Prog (Unit {0})
delete_retired spins n [] thread = ret tt
delete_retired spins n (p ∷ ps) thread = synchronize_rcu spins n >> delete_nodes (p ∷ ps) thread

-- What `find` returns and writes to its output parameters, and the vector that it appends to.
pub record Found : Type 0 where
  pub found : Bool
  pub pred : Loc
  pub curr : ℕ
  pub succ : ℕ
  pub retired : List ℕ

module _ (less same : ℕ → ℕ → Bool) where
  -- `key != nullptr && !(*key < *x)`.
  unfoldable pub reached : (node x : ℕ) → Prog Bool
  reached node x = do
    i ← ask (load (item node))
    if i == 0 then ret false else do i' ← ask (load (item node)); ret (not (less i' x))

  -- The inner loop of `find`. `succ` is the source's `next`, which has no value before the first
  -- round; `restart` is the jump to `try_again`, with what `next` and `retired` hold.
  unfoldable pub walk :
      (steps : ℕ)
      → (restart : ℕ → List ℕ → Prog Found) → (x : ℕ) → (pred : Loc) → (curr succ : ℕ) → List ℕ
      → (thread : ℕ) → Prog Found
  walk zero restart x pred curr succ retired thread = retry
  walk (suc steps) restart x pred curr succ retired thread =
      if get_unmarked curr == 0
      then ret (record { found = false; pred = pred; curr = curr; succ = succ; retired = retired })
      else do
        succ' ← ask (load (next curr))
        t ← ask (load tail)
        if get_unmarked succ' == t
            then ret (record {
              found = false;
              pred = pred;
              curr = curr;
              succ = succ';
              retired = retired;
            })
            else (do
              again ← ask (load (next (get_unmarked curr)))
              if again == succ'
                  then (do
                    p ← ask (load pred)
                    if p == get_unmarked curr
                        then (if get_unmarked succ' == succ'
                            then (do
                              stop ← reached (get_unmarked curr) x
                              if stop
                                  then (do
                                    i ← ask (load (item (get_unmarked curr)))
                                    ret (record {
                                      found = same i x;
                                      pred = pred;
                                      curr = curr;
                                      succ = succ';
                                      retired = retired;
                                    }))
                                  else walk steps restart x (next (get_unmarked curr)) succ' succ'
                                      retired thread)
                            else (do
                              old ← ask (cas pred (get_unmarked curr) (get_unmarked succ'))
                              if old == get_unmarked curr
                                  then (do
                                    c ← ask (load (retired_count thread))
                                    run (store (retired_count thread) (incr c))
                                    walk steps restart x pred succ' succ'
                                        (retired ++ get_unmarked curr ∷ []) thread)
                                  else restart succ' retired))
                        else restart succ' retired)
                  else restart succ' retired)

  -- From `try_again` on; `succ` is what the variable `next` holds.
  unfoldable pub find_from : (rounds steps x succ : ℕ) → List ℕ → (thread : ℕ) → Prog Found
  find_from zero steps x succ retired thread = retry
  find_from (suc rounds) steps x succ retired thread = do
    curr ← ask (load head)
    p ← ask (load head)
    if p == get_unmarked curr
        then walk steps (λ s r. find_from rounds steps x s r thread) x head curr succ retired thread
        else find_from rounds steps x succ retired thread

  unfoldable pub find : (rounds steps x unset : ℕ) → List ℕ → (thread : ℕ) → Prog Found
  find rounds steps x unset retired thread = find_from rounds steps x unset retired thread

  unfoldable pub add_loop :
      (rounds steps spins n x unset node : ℕ) → List ℕ → (thread : ℕ) → Prog Bool
  add_loop zero steps spins n x unset node retired thread = retry
  add_loop (suc rounds) steps spins n x unset node retired thread = do
    f ← find rounds steps x unset retired thread
    if f.found
        then (do
          run (free node)
          read_unlock thread
          delete_retired spins n f.retired thread
          ret false)
        else (do
          run (store (next node) f.curr)
          old ← ask (cas f.pred (get_unmarked f.curr) node)
          if old == get_unmarked f.curr
              then (do read_unlock thread; delete_retired spins n f.retired thread; ret true)
              else add_loop rounds steps spins n x unset node f.retired thread)

  unfoldable pub add : (rounds steps spins n x unset thread : ℕ) → Prog Bool
  add rounds steps spins n x unset thread = do
    node ← new_node x
    read_lock thread
    add_loop rounds steps spins n x unset node [] thread

  unfoldable pub remove_loop :
      (rounds steps spins n x unset : ℕ) → List ℕ → (thread : ℕ) → Prog Bool
  remove_loop zero steps spins n x unset retired thread = retry
  remove_loop (suc rounds) steps spins n x unset retired thread = do
    f ← find rounds steps x unset retired thread
    if f.found
        then (do
          marked ← ask (cas (next f.curr) (get_unmarked f.succ) (get_marked f.succ))
          if marked == get_unmarked f.succ
              then (do
                old ← ask (cas f.pred (get_unmarked f.curr) (get_unmarked f.succ))
                read_unlock thread
                (if old == get_unmarked f.curr
                    then synchronize_rcu spins n >> run (free (get_unmarked f.curr))
                    else ret tt)
                delete_retired spins n f.retired thread
                ret true)
              else remove_loop rounds steps spins n x unset f.retired thread)
        else (do read_unlock thread; delete_retired spins n f.retired thread; ret false)

  unfoldable pub remove_item : (rounds steps spins n x unset thread : ℕ) → Prog Bool
  remove_item rounds steps spins n x unset thread =
      read_lock thread >> remove_loop rounds steps spins n x unset [] thread

  unfoldable pub contains : (rounds steps spins n x unset thread : ℕ) → Prog Bool
  contains rounds steps spins n x unset thread = do
    read_lock thread
    f ← find rounds steps x unset [] thread
    read_unlock thread
    delete_retired spins n f.retired thread
    ret f.found

unfoldable pub get_retired_nodes_count : (thread : ℕ) → Prog ℕ
get_retired_nodes_count thread = ask (load (retired_count thread))
