-- ===== src/Urcu/ListChange.antt =====
-- LinkedListURCU.hpp: what linking and unlinking a node do to the keys of a list in memory.
use smr_implementations.Machine.{Mem, head, read, update, valid}
use smr_implementations.Machine.Chains.{Linked, Linked-suffix, count_self}
use smr_implementations.Urcu.LinkedList.{get_unmarked}
use smr_implementations.Urcu.ListLinks.{
  Linked-front, Linked-replaced, pred_after-read, pred_after-valid, replaced, replaced-at,
}
use smr_implementations.Urcu.ListSet.{HasKeys}
use smr_implementations.Prelude.{
  Bool, List, [], ap, append_assoc, arith, count, count-append, has_of-count, map, refl, subst, sym,
  true, ℕ, ℕ_discrete, ◌++◌, ◌+◌, ◌∙◌, ◌∷◌, ◌≡◌, ◌≢◌, ◌≤◌,
}
use smr_implementations.Benchmark.Sets.{member, with_item, without_item}
use smr_implementations.Urcu.ListFind.{
  Linked-start, count-head_or, head_or, hit, others, passed, passed-others, pred_after,
}

module _ (less same : ℕ → ℕ → Bool) (item_of : ℕ → ℕ) (x : ℕ) where
  -- The search through the nodes is the search through their keys.
  pub hit-member :
      (cs : List ℕ)
      → hit less same item_of x (others less same item_of x cs)
        ≡ member less same x (map item_of cs)
  hit-member [] = refl
  hit-member (c ∷ cs) = ground (arith, hit-member cs)

  with_node-with_item :
      (p : ℕ) (cs : List ℕ)
      → item_of p ≡ x
      → map item_of (passed less same item_of x cs ++ p ∷ others less same item_of x cs)
        ≡ with_item less same x (map item_of cs)
  with_node-with_item p [] e = λ i. e i ∷ []
  with_node-with_item p (c ∷ cs) e = ground (arith, with_node-with_item p cs e, e)

  pub without_node-without_item :
      (c : ℕ) (back cs : List ℕ)
      → others less same item_of x cs ≡ c ∷ back
      → map item_of (passed less same item_of x cs ++ back)
        ≡ without_item less same x (map item_of cs)
  without_node-without_item c back [] e = cc
  without_node-without_item c back (d ∷ cs) e =
      ground (arith, without_node-without_item c back cs, e)

  count-passed-others :
      (q : ℕ) (cs : List ℕ)
      → count q (passed less same item_of x cs) + count q (others less same item_of x cs)
        ≡ count q cs
  count-passed-others q cs =
      sym (count-append q (passed less same item_of x cs) (others less same item_of x cs))
      ∙ ap (count q) (passed-others less same item_of x cs)

count-0-with_item :
    (less same : ℕ → ℕ → Bool) (x : ℕ) (xs : List ℕ)
    → x ≢ 0
    → count 0 xs ≡ 0
    → count 0 (with_item less same x xs) ≡ 0
count-0-with_item less same x [] some_x e = ground (arith, some_x)
count-0-with_item less same x (y ∷ ys) some_x e =
    ground (arith, count-0-with_item less same x ys some_x, e, some_x)

pub count-0-without_item :
    (less same : ℕ → ℕ → Bool) (x : ℕ) (xs : List ℕ)
    → count 0 xs ≡ 0
    → count 0 (without_item less same x xs) ≡ 0
count-0-without_item less same x [] e = e
count-0-without_item less same x (y ∷ ys) e = ground (arith, count-0-without_item less same x ys, e)

head_or-split : (cs : List ℕ) (f t : ℕ) → (back : List ℕ) × (cs ++ f ∷ t ∷ [] ≡ head_or cs f ∷ back)
head_or-split [] f t = (t ∷ [], refl)
head_or-split (c ∷ cs) f t = (cs ++ f ∷ t ∷ [], refl)

module _ (less same : ℕ → ℕ → Bool) (x : ℕ) (xs : List ℕ) (m : Mem) (s : HasKeys xs m) where
  abbrev pub front : List ℕ
  front = passed less same m.item_of x s.nodes

  abbrev pub behind : List ℕ
  behind = others less same m.item_of x s.nodes

  abbrev pub ends : List ℕ
  ends = s.first ∷ m.tail_word ∷ []

  pub counted : (q : ℕ) → count q front + count q behind ≡ count q s.nodes
  counted q = count-passed-others less same m.item_of x q s.nodes

  pub chain_split : Linked m.next_of m.head_word (front ++ (behind ++ ends))
  chain_split =
      subst (Linked m.next_of m.head_word)
        (ap (λ l. l ++ ends) (sym (passed-others less same m.item_of x s.nodes))
          ∙ append_assoc front behind ends)
        s.chain

  -- The node that `find` returns, and the word before it.
  pub curr_even : get_unmarked (head_or behind s.first) ≡ head_or behind s.first
  curr_even =
      let c = head_or behind s.first in
      s.even c (
        omega (
          arith,
          count-head_or s.first behind,
          count-append c behind (s.first ∷ []),
          counted c,
          count_self s.first [],
        ))

  pub pred-valid : (nx : ℕ → ℕ) → valid (record m { next_of = nx }) (pred_after head front) ≡ true
  pred-valid nx =
      pred_after-valid front (record m { next_of = nx })
        λ q h. has_of-count q m.live (omega (arith, h, counted q, s.owned q))

  pub pred-read :
      (c w : ℕ)
      → count c front ≡ 0
      → read (record m { next_of = update m.next_of c w }) (pred_after head front)
        ≡ head_or behind s.first
  pred-read c w out =
      let (back, e) = head_or-split behind s.first m.tail_word in
      pred_after-read front back (head_or behind s.first) c w m
        (subst (λ l. Linked m.next_of m.head_word (front ++ l)) e chain_split) out

  -- A node with the key, linked behind the smaller keys.
  pub linked-HasKeys :
      (p : ℕ)
      → ((q : ℕ) → count q s.nodes + count q ends + count q (p ∷ []) ≤ count q m.live)
      → count p s.nodes + count p ends ≡ 0
      → p ≢ 0
      → get_unmarked p ≡ p
      → m.item_of p ≡ x
      → x ≢ 0
      → HasKeys (with_item less same x xs) (replaced front p (head_or behind s.first) p m)
  linked-HasKeys p room unused some_p even_p keyed some_x =
      let out : count p front ≡ 0 = omega (arith, counted p, unused) in
      let back = behind ++ ends in
      let (q0, from_q0) = Linked-suffix m.next_of m.head_word front back chain_split in
      let from_curr = (Linked-start m.next_of q0 s.first m.tail_word behind from_q0).1 in
      let curr = head_or behind s.first in
      let m' = replaced front p curr p m in
      let once_front : (k : ℕ) → count k front ≤ 1 = λ k. omega (arith, counted k, s.distinct k) in
      let kept : Linked m'.next_of curr back =
        Linked-replaced front p curr p m out curr back
          (omega (arith, count-append p behind ends, counted p, unused))
          (λ k.
            omega (
              arith,
              count-append k front back,
              count-append k behind ends,
              counted k,
              s.distinct k,
            ))
          from_curr in
      let leads : m'.next_of p ≡ curr = replaced-at front p curr p m out in
      let total : (q : ℕ) → count q (front ++ p ∷ behind) ≡ count q s.nodes + count q (p ∷ []) =
        λ q. omega (arith, counted q, count-append q front (p ∷ behind), count_self p behind) in
      record {
        nodes = front ++ p ∷ behind;
        first = s.first;
        chain =
            subst (Linked m'.next_of m'.head_word) (sym (append_assoc front (p ∷ behind) ends)) (
              Linked-front front p curr p m out back (p ∷ back) chain_split once_front
                (refl, some_p, subst (λ j. Linked m'.next_of j back) (sym leads) kept));
        distinct = λ q. elim (ℕ_discrete p q) [
          | yes e ↦
              let none_yet = subst (λ k. count k s.nodes + count k ends ≡ 0) e unused in
              ground (arith, total q, none_yet)
          | no ne ↦ ground (arith, total q, s.distinct q, ne)
        ];
        owned = λ q. omega (arith, room q, total q);
        even = λ q h. elim (ℕ_discrete p q) [
          | yes e ↦ subst (λ k. get_unmarked k ≡ k) e even_p
          | no ne ↦ s.even q (ground (arith, h, total q, ne))
        ];
        contents =
            with_node-with_item less same m.item_of x p s.nodes keyed
            ∙ ap (with_item less same x) s.contents;
        some_keys = count-0-with_item less same x xs some_x s.some_keys;
      }
