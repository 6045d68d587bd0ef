-- ===== src/Machine/Sample.antt =====
-- A memory and an allocator on which methods can be run.
use smr_implementations.Prelude.{
  List, [], arith, count, false, if◌then◌else◌, true, ℕ, ◌&&◌, ◌*◌, ◌+◌, ◌==◌, ◌∷◌, ◌≡◌, ◌≤◌,
}
use smr_implementations.Machine.Chains.{IsFresh}
use smr_implementations.Machine.{Mem}

-- Even addresses, above all that are in use.
abbrev pub bump : List ℕ → ℕ
bump [] = 2
bump (p ∷ ps) = p + bump ps

count-bump : (q : ℕ) (live : List ℕ) → bump live ≤ q → (2 ≤ bump live) × (count q live ≡ 0)
count-bump q [] h = omega arith
count-bump q (p ∷ ps) h = ground (arith, count-bump q ps)

pub bump-IsFresh : IsFresh bump
bump-IsFresh live = let facts = count-bump (bump live) live (omega arith) in (omega arith, facts.1)

-- Even addresses, whatever the ones in use are.
abbrev pub even_bump : List ℕ → ℕ
even_bump live = 2 * bump live

pub even_bump-IsFresh : IsFresh even_bump
even_bump-IsFresh live =
    let facts = count-bump (even_bump live) live (omega arith) in (omega (arith, facts.0), facts.1)

-- Before any constructor has run. Raw memory holds 77 where a node's item will be.
abbrev pub raw : Mem
raw = record {
  top_word = 0;
  head_word = 0;
  tail_word = 0;
  clock_word = 0;
  item_of = λ p. 77;
  next_of = λ p. 0;
  birth_of = λ p. 0;
  death_of = λ p. 0;
  slots = λ k j. 0;
  rows = λ k. false;
  reserved = λ k. 0;
  num_reserved = 0;
  retired_counts = λ k. 0;
  alloc_stats = λ k. 0;
  retire_stats = λ k. 0;
  live = [];
  retired = λ k. [];
}

-- The nodes 10 and 12 are allocated, 12 on top, and every thread has its slots.
abbrev pub two_nodes : Mem
two_nodes = record raw {
  top_word = 12;
  next_of = λ p. if p == 12 then 10 else 0;
  rows = λ k. true;
  live = 12 ∷ 10 ∷ [];
}

-- Thread 1 protects node 12, and thread 0 has retired node 10.
abbrev pub protecting : Mem
protecting = record two_nodes {
  slots = λ k j. if (k == 1) && (j == 0) then 12 else 0;
  retired = λ k. if k == 0 then 10 ∷ [] else [];
}

-- A linked list of the nodes 12 and 10, with the items 5 and 7, before the tail 8.
abbrev pub two_items : Mem
two_items = record raw {
  head_word = 12;
  tail_word = 8;
  item_of = λ p. if p == 12 then 5 else if p == 10 then 7 else 0;
  next_of = λ p. if p == 12 then 10 else 8;
  rows = λ k. true;
  live = 12 ∷ 10 ∷ 8 ∷ [];
}
