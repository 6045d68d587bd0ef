-- ===== src/Urcu/ListUnlink.antt =====
-- LinkedListURCU.hpp: the node that `remove` takes out, and the keys without it.
use smr_implementations.Prelude.{
  Bool, List, [], ap, append_assoc, arith, count, count-append, count-remove, has, has_of-count,
  refl, remove, subst, sym, true, ℕ, ◌++◌, ◌+◌, ◌∙◌, ◌∷◌, ◌≡◌, ◌≢◌,
}
use smr_implementations.Machine.{Mem}
use smr_implementations.Machine.Chains.{Linked, Linked-suffix}
use smr_implementations.Benchmark.Sets.{member, without_item}
use smr_implementations.Urcu.LinkedList.{get_unmarked}
use smr_implementations.Urcu.ListFind.{Linked-start, count-head_or, head_or, hit}
use smr_implementations.Urcu.ListLinks.{Linked-front, Linked-replaced, replaced}
use smr_implementations.Urcu.ListSet.{HasKeys}
use smr_implementations.Urcu.ListChange.{
  behind, chain_split, count-0-without_item, counted, ends, front, hit-member,
  without_node-without_item,
}

-- What `remove` needs of a node `c` behind the nodes `front`.
pub record IsRemovable (front : List ℕ) (c : ℕ) (m : Mem) : Type 0 where
  pub out : count c front ≡ 0
  pub some_node : c ≢ 0
  pub alive : has c m.live ≡ true
  pub even : get_unmarked c ≡ c
  pub even_next : get_unmarked (m.next_of c) ≡ m.next_of c

module _ (less same : ℕ → ℕ → Bool) (x : ℕ) (xs : List ℕ) (m : Mem) (s : HasKeys xs m) where
  abbrev fs : List ℕ
  fs = front less same x xs m s

  abbrev bs : List ℕ
  bs = behind less same x xs m s

  abbrev es : List ℕ
  es = ends less same x xs m s

  -- The first node that is not smaller, unlinked and deleted.
  pub unlinked-HasKeys :
      (c w : ℕ) (cs : List ℕ)
      → bs ≡ c ∷ cs
      → let m' = replaced fs c w (m.next_of c) m in
        HasKeys (without_item less same x xs) (record m' { live = remove c m.live })
  unlinked-HasKeys c w cs e =
      let at_behind : (q : ℕ) → count q fs + count q (c ∷ cs) ≡ count q s.nodes = λ q.
        subst (λ l. count q fs + count q l ≡ count q s.nodes) e (counted less same x xs m s q) in
      let out : count c fs ≡ 0 = ground (arith, at_behind c, s.distinct c) in
      let once : count c cs + count c es ≡ 0 = ground (arith, at_behind c, s.distinct c) in
      let split' : Linked m.next_of m.head_word (fs ++ (c ∷ (cs ++ es))) =
        subst (λ l. Linked m.next_of m.head_word (fs ++ (l ++ es))) e
          (chain_split less same x xs m s) in
      let (q0, (at_c, some_c, beyond)) =
        Linked-suffix m.next_of m.head_word fs (c ∷ (cs ++ es)) split' in
      let m' = replaced fs c w (m.next_of c) m in
      let kept : Linked m'.next_of (m.next_of c) (cs ++ es) =
        Linked-replaced fs c w (m.next_of c) m out (m.next_of c) (cs ++ es)
          (omega (arith, count-append c cs es, once))
          (λ k.
            omega (
              arith,
              count-append k fs (cs ++ es),
              count-append k cs es,
              at_behind k,
              s.distinct k,
            ))
          beyond in
      let alive : has c m.live ≡ true =
        has_of-count c m.live (ground (arith, at_behind c, s.owned c)) in
      let total : (q : ℕ) → count q (fs ++ cs) + count q (c ∷ []) ≡ count q s.nodes =
        λ q. omega (arith, at_behind q, count-append q fs cs) in
      record {
        nodes = fs ++ cs;
        first = s.first;
        chain = subst (Linked m'.next_of m'.head_word) (sym (append_assoc fs cs es)) (
            Linked-front fs c w (m.next_of c) m out (c ∷ (cs ++ es)) (cs ++ es) split'
              (λ k. omega (arith, counted less same x xs m s k, s.distinct k)) kept);
        distinct = λ q. omega (arith, total q, s.distinct q);
        owned = λ q. omega (arith, total q, s.owned q, count-remove c q m.live alive);
        even = λ q h. s.even q (omega (arith, h, total q));
        contents =
            without_node-without_item less same m.item_of x c cs s.nodes e
            ∙ ap (without_item less same x) s.contents;
        some_keys = count-0-without_item less same x xs s.some_keys;
      }

  pub behind-IsRemovable : (c : ℕ) (cs : List ℕ) → bs ≡ c ∷ cs → IsRemovable fs c m
  behind-IsRemovable c cs e =
      let at_behind : (q : ℕ) → count q fs + count q (c ∷ cs) ≡ count q s.nodes = λ q.
        subst (λ l. count q fs + count q l ≡ count q s.nodes) e (counted less same x xs m s q) in
      let split' : Linked m.next_of m.head_word (fs ++ (c ∷ (cs ++ es))) =
        subst (λ l. Linked m.next_of m.head_word (fs ++ (l ++ es))) e
          (chain_split less same x xs m s) in
      let (q0, (at_c, some_c, beyond)) =
        Linked-suffix m.next_of m.head_word fs (c ∷ (cs ++ es)) split' in
      let d = head_or cs s.first in
      let at_next : m.next_of c ≡ d =
        (Linked-start m.next_of (m.next_of c) s.first m.tail_word cs beyond).0 in
      let even_d : get_unmarked d ≡ d =
        s.even d (
          omega (arith, count-head_or s.first cs, count-append d cs (s.first ∷ []), at_behind d)) in
      record {
        out = ground (arith, at_behind c, s.distinct c);
        some_node = some_c;
        alive = has_of-count c m.live (ground (arith, at_behind c, s.owned c));
        even = s.even c (ground (arith, at_behind c));
        even_next = rw at_next even_d;
      }

  pub member-behind :
      member less same x xs ≡ true
      → (c : ℕ) × (cs : List ℕ) × (bs ≡ c ∷ cs) × (same (m.item_of c) x ≡ true)
  member-behind old =
      first_of bs
        (hit-member less same m.item_of x s.nodes ∙ ap (member less same x) s.contents ∙ old)
    where
      first_of :
          (l : List ℕ)
          → hit less same m.item_of x l ≡ true
          → (c : ℕ) × (cs : List ℕ) × (l ≡ c ∷ cs) × (same (m.item_of c) x ≡ true)
      first_of [] found = cc
      first_of (c ∷ cs) found = (c, cs, refl, found)
