-- ===== src/Machine.antt =====
-- The C++ memory and threads that the four folders share: what a process keeps in memory, the
-- atomic actions that a method makes on it, and methods as programs over these actions.
pub mod Bounded
pub mod Chains
pub mod Exec
pub mod Guarded
pub mod Interfered
pub mod Sample
pub mod Steps
pub mod Threads
use smr_implementations.Prelude.{
  Bool, List, Option, [], arith, erase_at, false, fun_ext, get_elem?, has, if◌then◌else◌, length,
  ltb, none, remove, some, suc, true, zero, ℕ, ◌%◌, ◌&&◌, ◌++◌, ◌+◌, ◌==◌, ◌^◌, ◌∷◌, ◌≡◌,
}

-- Memory words that a method reads and writes. A pointer is a number, 0 is `nullptr`.
pub data Loc : Type 0 where
  -- the roots of a data structure
  top head tail : Loc
  -- `node->item`, `node->next`, and the eras in which a node was made and retired
  item next birth death : ℕ → Loc
  -- `hazardPointerList[k][j]`, `hazardErasList[k][j]`
  slot : ℕ → ℕ → Loc
  -- `globalEraClock`, `globalEpoch`, `updaterVersion`
  clock : Loc
  -- `reservations[k]`, `readersVersion[k]`
  reservation : ℕ → Loc
  -- the counter of retired nodes of a thread, `allocStat[k]`, `retireStat[k]`
  retired_count alloc_stat retire_stat : ℕ → Loc

-- `live` lists the allocated nodes. A function's value at a node that is not allocated is what
-- the raw memory happens to hold.
pub record Mem : Type 0 where
  pub top_word : ℕ
  pub head_word : ℕ
  pub tail_word : ℕ
  pub clock_word : ℕ
  pub item_of : ℕ → ℕ
  pub next_of : ℕ → ℕ
  pub birth_of : ℕ → ℕ
  pub death_of : ℕ → ℕ
  pub slots : ℕ → ℕ → ℕ
  pub rows : ℕ → Bool
  pub reserved : ℕ → ℕ
  pub num_reserved : ℕ
  pub retired_counts : ℕ → ℕ
  pub alloc_stats : ℕ → ℕ
  pub retire_stats : ℕ → ℕ
  pub live : List ℕ
  pub retired : ℕ → List ℕ

-- MAX_NUMBER_OF_THREADS and its copies, MAX_NUMBER_OF_HAZARD_POINTERS_PER_THREAD and its copy.
abbrev pub max_threads : ℕ
max_threads = 40

abbrev pub slots_per_thread : ℕ
slots_per_thread = 5

abbrev pub update {ℓ} : {A : Type ℓ} → (ℕ → A) → ℕ → A → ℕ → A
update f p v q = if p == q then v else f q

pub update_self {ℓ} : {A : Type ℓ} (f : ℕ → A) (p : ℕ) → update f p (f p) ≡ f
update_self f p = fun_ext λ q. ground arith

pub update-update {ℓ} :
    {A : Type ℓ} (f : ℕ → A) (p : ℕ) (v w : A) → update (update f p v) p w ≡ update f p w
update-update f p v w = fun_ext λ q. ground arith

abbrev pub update2 : (ℕ → ℕ → ℕ) → ℕ → ℕ → ℕ → ℕ → ℕ → ℕ
update2 f k j v k' j' = if (k == k') && (j == j') then v else f k' j'

unfoldable pub read : Mem → Loc → ℕ
read m top = m.top_word
read m head = m.head_word
read m tail = m.tail_word
read m (item p) = m.item_of p
read m (next p) = m.next_of p
read m (birth p) = m.birth_of p
read m (death p) = m.death_of p
read m (slot k j) = m.slots k j
read m clock = m.clock_word
read m (reservation k) = m.reserved k
read m (retired_count k) = m.retired_counts k
read m (alloc_stat k) = m.alloc_stats k
read m (retire_stat k) = m.retire_stats k

unfoldable pub write : Mem → Loc → ℕ → Mem
write m top v = record m { top_word = v }
write m head v = record m { head_word = v }
write m tail v = record m { tail_word = v }
write m (item p) v = record m { item_of = update m.item_of p v }
write m (next p) v = record m { next_of = update m.next_of p v }
write m (birth p) v = record m { birth_of = update m.birth_of p v }
write m (death p) v = record m { death_of = update m.death_of p v }
write m (slot k j) v = record m { slots = update2 m.slots k j v }
write m clock v = record m { clock_word = v }
write m (reservation k) v = record m { reserved = update m.reserved k v }
write m (retired_count k) v = record m { retired_counts = update m.retired_counts k v }
write m (alloc_stat k) v = record m { alloc_stats = update m.alloc_stats k v }
write m (retire_stat k) v = record m { retire_stats = update m.retire_stats k v }

-- Whether an access is defined: the node is allocated, or the index is in the array's range.
unfoldable pub valid : Mem → Loc → Bool
valid m top = true
valid m head = true
valid m tail = true
valid m (item p) = has p m.live
valid m (next p) = has p m.live
valid m (birth p) = has p m.live
valid m (death p) = has p m.live
valid m (slot k j) = m.rows k && ltb j slots_per_thread
valid m clock = true
valid m (reservation k) = ltb k m.num_reserved
valid m (retired_count k) = ltb k max_threads
valid m (alloc_stat k) = ltb k max_threads
valid m (retire_stat k) = ltb k max_threads

-- One action on memory, answered by a number: the value read, for `cas` and `fetch_add` the value
-- before, for `alloc` the address; 0 where there is nothing to answer.
pub data Cmd : Type 0 where
  load : Loc → Cmd
  store : Loc → ℕ → Cmd
  cas : Loc → ℕ → ℕ → Cmd
  fetch_add : Loc → ℕ → Cmd
  -- `new` and `delete` of a node
  alloc : Cmd
  free : ℕ → Cmd
  -- `new[]` and `delete[]` of a thread's slots, and of the readers' versions
  new_row delete_row : ℕ → Cmd
  new_reservations : ℕ → Cmd
  delete_reservations : Cmd
  -- the vector of retired nodes of a thread
  push_back erase : ℕ → ℕ → Cmd
  size : ℕ → Cmd
  at : ℕ → ℕ → Cmd
  -- an operation that C++ leaves undefined, such as a signed overflow
  undefined : Cmd

-- `none` is undefined behaviour: a dead node, an index out of range, a double free.
abbrev pub Answer : Type 0
Answer = Option (ℕ × Mem)

-- `allocator` stands for the C++ runtime's: it chooses an address from those that are in use.
unfoldable pub perform : (allocator : List ℕ → ℕ) → Cmd → Mem → Answer
unfolding read write valid
perform allocator (load l) m = if valid m l then some (read m l, m) else none
perform allocator (store l v) m = if valid m l then some (0, write m l v) else none
perform allocator (cas l expected v) m =
    if valid m l then some (read m l, if read m l == expected then write m l v else m) else none
perform allocator (fetch_add l n) m =
    if valid m l then some (read m l, write m l ((read m l + n) % 2 ^ 64)) else none
perform allocator alloc m = let p = allocator m.live in some (p, record m { live = p ∷ m.live })
perform allocator (free p) m =
    if p == 0
    then some (0, m)
    else if has p m.live
    then some (0, record m { live = remove p m.live })
    else none
perform allocator (new_row k) m = some (0, record m { rows = update m.rows k true })
perform allocator (delete_row k) m = some (0, record m { rows = update m.rows k false })
perform allocator (new_reservations n) m = some (0, record m { num_reserved = n })
perform allocator delete_reservations m = some (0, record m { num_reserved = 0 })
perform allocator (push_back k p) m =
    if ltb k max_threads
    then some (0, record m { retired = update m.retired k (m.retired k ++ p ∷ []) })
    else none
perform allocator (erase k i) m =
    if ltb i (length (m.retired k))
    then some (0, record m { retired = update m.retired k (erase_at (m.retired k) i) })
    else none
perform allocator (size k) m = if ltb k max_threads then some (length (m.retired k), m) else none
perform allocator (at k i) m = elim (get_elem? (m.retired k) i) [
  | none ↦ none
  | some p ↦ some (p, m)
]
perform allocator undefined m = none

-- A method: its next action and what it does with the answer. `retry` is a loop that has used up
-- its fuel.
pub data Prog {ℓ} (A : Type ℓ) : Type ℓ where
  ret : A → Prog A
  act : Cmd → (ℕ → Prog A) → Prog A
  retry : Prog A

module _ {ℓ κ} {A : Type ℓ} {B : Type κ} where
  infixl 5 ◌>>=◌
  abbrev pub ◌>>=◌ : Prog A → (A → Prog B) → Prog B
  ret a >>= f = f a
  act c k >>= f = act c (λ r. k r >>= f)
  retry >>= f = retry

infixl 5 ◌>>◌
abbrev pub ◌>>◌ {ℓ} : {B : Type ℓ} → Prog (Unit {0}) → Prog B → Prog B
p >> q = p >>= λ _. q

-- One action, with its answer or without.
abbrev pub ask : Cmd → Prog ℕ
ask c = act c ret

abbrev pub run : Cmd → Prog (Unit {0})
run c = act c (λ _. ret tt)

-- `a % b`, which is undefined for `b = 0`.
unfoldable pub remainder : (a b : ℕ) → Prog ℕ
remainder a b = if b == 0 then act undefined (λ _. retry) else ret (a % b)

-- `for (int i = from; i < from + rounds; i++) body(i)`.
unfoldable pub for_loop : (rounds from : ℕ) → (ℕ → Prog (Unit {0})) → Prog (Unit {0})
for_loop zero i body = ret tt
for_loop (suc n) i body = body i >> for_loop n (i + 1) body
