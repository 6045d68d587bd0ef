-- ===== src/Urcu/ListSet.antt =====
-- LinkedListURCU.hpp: the keys of a list in memory, and what linking and unlinking a node do to them.
use smr_implementations.Prelude.{
  List, [], ap, arith, count, count-append, has_of-count, map, ℕ, ℕ_discrete, ◌++◌, ◌+◌, ◌<◌, ◌∙◌,
  ◌∷◌, ◌≡◌, ◌≢◌, ◌≤◌,
}
use smr_implementations.Machine.{Mem, update}
use smr_implementations.Machine.Chains.{Linked, Linked-update, count_self, map-update}
use smr_implementations.Urcu.LinkedList.{get_unmarked}
use smr_implementations.Urcu.ListFind.{IsRoute, Linked-start, head_or}

-- The keys `xs`, in nodes that are linked from the head, before the node `first` that the constructor
-- has made and the tail.
pub record HasKeys (xs : List ℕ) (m : Mem) : Type 0 where
  pub nodes : List ℕ
  pub first : ℕ
  pub chain : Linked m.next_of m.head_word (nodes ++ first ∷ m.tail_word ∷ [])
  pub distinct : (q : ℕ) → count q nodes + count q (first ∷ m.tail_word ∷ []) ≤ 1
  pub owned : (q : ℕ) → count q nodes + count q (first ∷ m.tail_word ∷ []) ≤ count q m.live
  pub even : (q : ℕ) → 0 < count q nodes + count q (first ∷ m.tail_word ∷ []) → get_unmarked q ≡ q
  pub contents : map m.item_of nodes ≡ xs
  pub some_keys : count 0 xs ≡ 0

some_key : (f : ℕ → ℕ) (q : ℕ) (cs : List ℕ) → count 0 (map f cs) ≡ 0 → 0 < count q cs → f q ≢ 0
some_key f q [] none_0 h = absurd (omega arith)
some_key f q (c ∷ cs) none_0 h = λ e. elim (ℕ_discrete c q) [
  | yes same ↦ let zero_key : f c ≡ 0 = ap f same ∙ e in ground (arith, none_0, zero_key)
  | no other ↦ some_key f q cs (omega (arith, none_0)) (ground (arith, h, other)) e
]

-- What `find` needs.
pub HasKeys-IsRoute :
    (xs : List ℕ) (m : Mem) (s : HasKeys xs m)
    → (m.head_word ≡ head_or s.nodes s.first) × IsRoute s.first s.nodes m
HasKeys-IsRoute xs m s =
    let (start, chain) = Linked-start m.next_of m.head_word s.first m.tail_word s.nodes s.chain in
    let t = m.tail_word in
    (
      start,
      record {
        chain = chain;
        sound = λ q h.
            let present : 0 < count q s.nodes + count q (s.first ∷ t ∷ []) =
              omega (arith, h, count-append q s.nodes (s.first ∷ t ∷ [])) in
            (s.even q present, has_of-count q m.live (omega (arith, present, s.owned q)));
        some_key = λ q h. some_key m.item_of q s.nodes (rw (s.contents) (s.some_keys)) h;
        apart = omega (arith, s.distinct t, count-append t s.nodes (s.first ∷ []), count_self t []);
      },
    )

-- Nothing here depends on the versions, the counters and the clock.
pub HasKeys-others :
    (xs : List ℕ) (m : Mem) (c : ℕ) (r k : ℕ → ℕ)
    → HasKeys xs m
    → HasKeys xs (record m { clock_word = c; reserved = r; retired_counts = k })
HasKeys-others xs m c r k s = record {
  nodes = s.nodes;
  first = s.first;
  chain = s.chain;
  distinct = s.distinct;
  owned = s.owned;
  even = s.even;
  contents = s.contents;
  some_keys = s.some_keys;
}

-- A node that is in no list can be made, with whatever allocated nodes there are then.
pub HasKeys-made :
    (xs : List ℕ) (m : Mem) (p x : ℕ) (live' : List ℕ) (r : ℕ → ℕ)
    → HasKeys xs m
    → count p m.live ≡ 0
    → ((q : ℕ) → count q m.live ≤ count q live')
    → let m' = record m {
      live = live';
      item_of = update m.item_of p x;
      next_of = update m.next_of p 0;
      reserved = r;
    } in
      (s : HasKeys xs m') × ((q : ℕ)
        → count q s.nodes + count q (s.first ∷ m.tail_word ∷ []) ≤ count q m.live)
HasKeys-made xs m p x live' r s unused more =
    let all = s.nodes ++ s.first ∷ m.tail_word ∷ [] in
    let outside : count p all ≡ 0 =
      omega (arith, unused, s.owned p, count-append p s.nodes (s.first ∷ m.tail_word ∷ [])) in
    let outside_nodes : count p s.nodes ≡ 0 = omega (arith, unused, s.owned p) in
    (
      record {
        nodes = s.nodes;
        first = s.first;
        chain = Linked-update m.next_of p 0 m.head_word all outside s.chain;
        distinct = s.distinct;
        owned = λ q. omega (arith, s.owned q, more q);
        even = s.even;
        contents = map-update m.item_of p x s.nodes outside_nodes ∙ s.contents;
        some_keys = s.some_keys;
      },
      s.owned,
    )
