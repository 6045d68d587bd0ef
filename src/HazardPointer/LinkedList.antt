-- ===== src/HazardPointer/LinkedList.antt =====
-- hazardpointer/LinkedListHazardPointer.hpp: the class `LinkedList_HazardPointer`. A marked pointer is
-- an odd number. `less` and `same` are `<` and `==` of the template's type `T`, on the objects that
-- two items point at. `rounds` bounds the jumps to `try_again` and the rounds of `add` and `remove`,
-- `steps` the nodes of one walk; `n` is the number of threads that the member `hpList` was made with.
use smr_implementations.Prelude.{
  Bool, false, if◌then◌else◌, not, suc, true, zero, ℕ, ◌%◌, ◌+◌, ◌-◌, ◌==◌,
}
use smr_implementations.Machine.{
  Loc, Prog, alloc, ask, cas, free, head, item, load, next, ret, retry, run, store, tail, ◌>>=◌,
  ◌>>◌,
}
use smr_implementations.HazardPointer.Manager.{
  clear, get_retired_count, retire_node, store_hazard_ptr,
}
use smr_implementations.HazardPointer.Manager

unfoldable pub new_node : (item : ℕ) → Prog ℕ
new_node x = do p ← ask alloc; run (store (item p) x); run (store (next p) 0); ret p

unfoldable pub is_marked : ℕ → Bool
is_marked node = node % 2 == 1

unfoldable pub get_marked : ℕ → ℕ
get_marked node = node - node % 2 + 1

unfoldable pub get_unmarked : ℕ → ℕ
get_unmarked node = node - node % 2

unfoldable pub construct : Prog (Unit {0})
construct = do
  Manager.construct
  sentinel ← new_node 0
  run (store head sentinel)
  run (store tail sentinel)
  h ← ask (load head)
  t ← ask (load tail)
  run (store (next h) t)

-- The result of `find` and its three output parameters.
pub record Found : Type 0 where
  pub found : Bool
  pub pred : Loc
  pub curr : ℕ
  pub succ : ℕ

module _ (less same : ℕ → ℕ → Bool) where
  -- `item != nullptr && !(*item < *x)`.
  unfoldable pub reached : (node x : ℕ) → Prog Bool
  reached node x = do
    i ← ask (load (item node))
    if i == 0 then ret false else do i' ← ask (load (item node)); ret (not (less i' x))

  -- The inner loop of `find`. `succ` is the source's `next`, which has no value before the first
  -- round; `restart` is the jump to `try_again`.
  unfoldable pub walk :
      (steps n : ℕ)
      → (restart : ℕ → Prog Found) → (x : ℕ) → (pred : Loc) → (curr succ thread : ℕ) → Prog Found
  walk zero n restart x pred curr succ thread = retry
  walk (suc steps) n restart x pred curr succ thread =
      if get_unmarked curr == 0
      then ret (record { found = false; pred = pred; curr = curr; succ = succ })
      else do
        succ' ← ask (load (next curr))
        store_hazard_ptr 0 (get_unmarked succ') thread >>= λ _. do
          again ← ask (load (next (get_unmarked curr)))
          if again == succ'
              then (do
                t ← ask (load tail)
                if get_unmarked succ' == t
                    then ret (record { found = false; pred = pred; curr = curr; succ = succ' })
                    else (do
                      p ← ask (load pred)
                      if p == get_unmarked curr
                          then (if get_unmarked succ' == succ'
                              then (do
                                stop ← reached (get_unmarked curr) x
                                if stop
                                    then (do
                                      i ← ask (load (item (get_unmarked curr)))
                                      ret (record {
                                        found = same i x;
                                        pred = pred;
                                        curr = curr;
                                        succ = succ';
                                      }))
                                    else (store_hazard_ptr 2 (get_unmarked curr) thread >>= λ _.
                                        store_hazard_ptr 1 (get_unmarked succ') thread >>= λ _.
                                        walk steps n restart x (next (get_unmarked curr)) succ'
                                          succ' thread))
                              else (do
                                old ← ask (cas pred (get_unmarked curr) (get_unmarked succ'))
                                if old == get_unmarked curr
                                    then (retire_node steps n (get_unmarked curr) thread
                                        >> (store_hazard_ptr 1 (get_unmarked succ') thread >>= λ _.
                                            walk steps n restart x pred succ' succ' thread))
                                    else restart succ'))
                          else restart succ'))
              else restart succ'

  -- From `try_again` on; `succ` is what the variable `next` holds.
  unfoldable pub find_from : (rounds steps n x succ thread : ℕ) → Prog Found
  find_from zero steps n x succ thread = retry
  find_from (suc rounds) steps n x succ thread = do
    curr ← ask (load head)
    store_hazard_ptr 1 curr thread >>= λ _.
        walk steps n (λ s. find_from rounds steps n x s thread) x head curr succ thread

  unfoldable pub find : (rounds steps n x unset thread : ℕ) → Prog Found
  find rounds steps n x unset thread = find_from rounds steps n x unset thread

  unfoldable pub add_loop : (rounds steps n x unset node thread : ℕ) → Prog Bool
  add_loop zero steps n x unset node thread = retry
  add_loop (suc rounds) steps n x unset node thread = do
    f ← find rounds steps n x unset thread
    if f.found then (do run (free node); clear thread; ret false) else (do
      run (store (next node) f.curr)
      old ← ask (cas f.pred (get_unmarked f.curr) node)
      if old == get_unmarked f.curr
          then clear thread >> ret true
          else add_loop rounds steps n x unset node thread)

  unfoldable pub add : (rounds steps n x unset thread : ℕ) → Prog Bool
  add rounds steps n x unset thread = do
    node ← new_node x
    add_loop rounds steps n x unset node thread

  unfoldable pub remove_item : (rounds steps n x unset thread : ℕ) → Prog Bool
  remove_item zero steps n x unset thread = retry
  remove_item (suc rounds) steps n x unset thread = do
    f ← find rounds steps n x unset thread
    if f.found
        then (do
          marked ← ask (cas (next f.curr) (get_unmarked f.succ) (get_marked f.succ))
          if marked == get_unmarked f.succ
              then (do
                old ← ask (cas f.pred (get_unmarked f.curr) (get_unmarked f.succ))
                (if old == get_unmarked f.curr
                    then clear thread >> retire_node steps n (get_unmarked f.curr) thread
                    else clear thread)
                ret true)
              else remove_item rounds steps n x unset thread)
        else clear thread >> ret false

  unfoldable pub contains : (rounds steps n x unset thread : ℕ) → Prog Bool
  contains rounds steps n x unset thread = do f ← find rounds steps n x unset thread; ret f.found

unfoldable pub get_retired_count_linked_list : (thread : ℕ) → Prog ℕ
get_retired_count_linked_list thread = get_retired_count thread
