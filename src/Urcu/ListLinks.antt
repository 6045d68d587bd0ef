-- ===== src/Urcu/ListLinks.antt =====
-- LinkedListURCU.hpp: the word before the node that `find` returns, and what writes to it do to the list.
use smr_implementations.Prelude.{
  List, [], ap, arith, count, count-append, has, refl, subst, sym, true, ℕ, ◌++◌, ◌<◌, ◌∙◌, ◌∷◌,
  ◌≡◌, ◌≢◌, ◌≤◌,
}
use smr_implementations.Machine.{Mem, head, next, read, update, valid, write}
use smr_implementations.Machine.Chains.{
  Linked, Linked-splice, Linked-update, count-last, last, update_same,
}
use smr_implementations.Urcu.ListFind.{pred_after}

-- The memory with the pointer after the nodes `front` replaced by `v`.
abbrev pub head_after : (front : List ℕ) (v h : ℕ) → ℕ
head_after [] v h = v
head_after (c ∷ cs) v h = h

abbrev pub links_after : (front : List ℕ) (v : ℕ) → (ℕ → ℕ) → ℕ → ℕ
links_after [] v next_of = next_of
links_after (c ∷ cs) v next_of = update next_of (last c cs) v

abbrev pub relinked : (front : List ℕ) (v : ℕ) → Mem → Mem
relinked front v m = record m {
  head_word = head_after front v m.head_word;
  next_of = links_after front v m.next_of;
}

pred_after-last : (c : ℕ) (cs : List ℕ) → pred_after (next c) cs ≡ next (last c cs)
pred_after-last c [] = refl
pred_after-last c (d ∷ cs) = pred_after-last d cs

pub write-relinked :
    (front : List ℕ) (v : ℕ) (m : Mem) → write m (pred_after head front) v ≡ relinked front v m
unfolding write
write-relinked [] v m = refl
write-relinked (c ∷ cs) v m = ap (λ l. write m l v) (pred_after-last c cs)

pub pred_after-valid :
    (front : List ℕ) (m : Mem)
    → ((q : ℕ) → 0 < count q front → has q m.live ≡ true)
    → valid m (pred_after head front) ≡ true
unfolding valid
pred_after-valid [] m alive = refl
pred_after-valid (c ∷ cs) m alive =
    ap (valid m) (pred_after-last c cs) ∙ alive (last c cs) (omega (arith, count-last c cs))

-- The word after `front` holds the next node, also after a write to a node outside of `front`.
pub pred_after-read :
    (front back : List ℕ) (d c w : ℕ) (m : Mem)
    → Linked m.next_of m.head_word (front ++ d ∷ back)
    → count c front ≡ 0
    → read (record m { next_of = update m.next_of c w }) (pred_after head front) ≡ d
unfolding read
pred_after-read [] back d c w m links out = links.0
pred_after-read (e ∷ es) back d c w m links out =
    let m' : Mem = record m { next_of = update m.next_of c w } in
    let other : c ≢ last e es =
      λ same. omega (arith, out, subst (λ q. 1 ≤ count q (e ∷ es)) (sym same) (count-last e es)) in
    let kept : update m.next_of c w (last e es) ≡ m.next_of (last e es) = ground (arith, other) in
    ap (read m') (pred_after-last e es) ∙ kept ∙ follow m.head_word e es links
  where
    follow :
        (p e : ℕ) (es : List ℕ)
        → Linked m.next_of p (e ∷ (es ++ d ∷ back))
        → m.next_of (last e es) ≡ d
    follow p e [] (s, ne, (s', ne', rest)) = s'
    follow p e (e' ∷ es) (s, ne, rest) = follow (m.next_of e) e' es rest

-- The memory after `w` has been written to the link of `c`, and `v` to the word after `front`.
abbrev pub replaced : (front : List ℕ) (c w v : ℕ) → Mem → Mem
replaced front c w v m = relinked front v (record m { next_of = update m.next_of c w })

module _ (front : List ℕ) (c w v : ℕ) (m : Mem) (out : count c front ≡ 0) where
  pub replaced-at : (replaced front c w v m).next_of c ≡ w
  replaced-at = by_front front out
    where
      by_front : (es : List ℕ) → count c es ≡ 0 → (replaced es c w v m).next_of c ≡ w
      by_front [] out' = update_same m.next_of c w
      by_front (e ∷ es) out' =
          let other : c ≢ last e es = λ same.
            omega (arith, out', subst (λ q. 1 ≤ count q (e ∷ es)) (sym same) (count-last e es)) in
          ground (arith, other)

  -- A chain apart from `front` and `c` stays.
  pub Linked-replaced :
      (q : ℕ) (back : List ℕ)
      → count c back ≡ 0
      → ((k : ℕ) → count k (front ++ back) ≤ 1)
      → Linked m.next_of q back
      → Linked (replaced front c w v m).next_of q back
  Linked-replaced q back apart distinct links = by_front front distinct
    where
      by_front :
          (es : List ℕ)
          → ((k : ℕ) → count k (es ++ back) ≤ 1)
          → Linked (relinked es v (record m { next_of = update m.next_of c w })).next_of q back
      by_front [] once = Linked-update m.next_of c w q back apart links
      by_front (e ∷ es) once =
          Linked-update (update m.next_of c w) (last e es) v q back
            (omega
              (arith, once (last e es), count-append (last e es) (e ∷ es) back, count-last e es))
            (Linked-update m.next_of c w q back apart links)

  -- What hangs behind `front` now is what `v` leads to.
  pub Linked-front :
      (back back' : List ℕ)
      → Linked m.next_of m.head_word (front ++ back)
      → ((k : ℕ) → count k front ≤ 1)
      → Linked (replaced front c w v m).next_of v back'
      → Linked (replaced front c w v m).next_of (replaced front c w v m).head_word (front ++ back')
  Linked-front back back' links distinct rest = by_front front links distinct out rest
    where
      by_front :
          (es : List ℕ)
          → Linked m.next_of m.head_word (es ++ back)
          → ((k : ℕ) → count k es ≤ 1)
          → count c es ≡ 0
          → let m' = relinked es v (record m { next_of = update m.next_of c w }) in
            Linked m'.next_of v back' → Linked m'.next_of m'.head_word (es ++ back')
      by_front [] links' once out' rest' = rest'
      by_front (e ∷ es) links' once out' rest' =
          let l = last e es in
          let nx = update (update m.next_of c w) l v in
          let agree : (q : ℕ) → 0 < count q (e ∷ es) → q ≢ l → nx q ≡ m.next_of q = λ q h other.
            let apart : q ≢ c = λ s. omega (arith, out', subst (λ k. 0 < count k (e ∷ es)) s h) in
            ground (arith, other, apart) in
          Linked-splice m.next_of nx v m.head_word e es back back' links' agree
            (update_same (update m.next_of c w) l v) once rest'
