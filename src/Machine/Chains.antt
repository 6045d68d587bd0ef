-- ===== src/Machine/Chains.antt =====
-- Chains of nodes that end in null.
use smr_implementations.Prelude.{
  List, [], ap, arith, count, map, refl, subst, sym, ℕ, ◌++◌, ◌+◌, ◌<◌, ◌∙◌, ◌∷◌, ◌≡◌, ◌≢◌, ◌≤◌,
}
use smr_implementations.Machine.{update}

-- From `p` the links lead through the nodes `cs` to null.
abbrev pub Linked : (next_of : ℕ → ℕ) → (p : ℕ) → List ℕ → Type 0
Linked next_of p [] = p ≡ 0
Linked next_of p (c ∷ cs) = (p ≡ c) × (c ≢ 0) × Linked next_of (next_of c) cs

pub update_same : (f : ℕ → ℕ) (c v : ℕ) → update f c v c ≡ v
update_same f c v = ground arith

-- A write to a node that is not in the chain leaves the chain and its items.
pub Linked-update :
    (next_of : ℕ → ℕ) (c v p : ℕ) (ns : List ℕ)
    → count c ns ≡ 0
    → Linked next_of p ns
    → Linked (update next_of c v) p ns
Linked-update next_of c v p [] out links = links
Linked-update next_of c v p (n ∷ ns) out (e, ne, links) =
    let same : next_of n ≡ update next_of c v n = ground arith in
    (
      e,
      ne,
      subst (λ q. Linked (update next_of c v) q ns) same
          (Linked-update next_of c v (next_of n) ns (ground arith) links),
    )

pub map-update :
    (f : ℕ → ℕ) (c v : ℕ) (ns : List ℕ) → count c ns ≡ 0 → map (update f c v) ns ≡ map f ns
map-update f c v [] out = refl
map-update f c v (n ∷ ns) out = ground (arith, map-update f c v ns)

-- What `new` promises: an address that is not null and not in use.
abbrev pub IsFresh : (allocator : List ℕ → ℕ) → Type 0
IsFresh allocator = (live : List ℕ) → (allocator live ≢ 0) × (count (allocator live) live ≡ 0)

-- The last node of a chain.
abbrev pub last : ℕ → List ℕ → ℕ
last c [] = c
last c (d ∷ cs) = last d cs

pub count_self : (c : ℕ) (cs : List ℕ) → count c (c ∷ cs) ≡ count c cs + 1
count_self c cs = ground arith

pub count-last : (c : ℕ) (cs : List ℕ) → 1 ≤ count (last c cs) (c ∷ cs)
count-last c [] = ground arith
count-last c (d ∷ cs) = ground (arith, count-last d cs)

pub last-append : (c q : ℕ) (cs : List ℕ) → last c (cs ++ q ∷ []) ≡ q
last-append c q [] = refl
last-append c q (d ∷ cs) = last-append d q cs

pub Linked-last :
    (next_of : ℕ → ℕ) (p c : ℕ) (cs : List ℕ) → Linked next_of p (c ∷ cs) → next_of (last c cs) ≡ 0
Linked-last next_of p c [] (e, ne, links) = links
Linked-last next_of p c (d ∷ cs) (e, ne, links) = Linked-last next_of (next_of c) d cs links

-- A node that is linked on is not the last one.
pub Linked-inner :
    (next_of : ℕ → ℕ) (p c d : ℕ) (cs : List ℕ) → Linked next_of p (c ∷ d ∷ cs) → c ≢ last d cs
Linked-inner next_of p c d cs (e, ne, (e', ne', links)) same =
    ne' (sym e' ∙ ap next_of same ∙ Linked-last next_of (next_of c) d cs (e', ne', links))

-- A node without a successor can be linked behind the last one.
pub Linked-append :
    (next_of : ℕ → ℕ) (q p c : ℕ) (cs : List ℕ)
    → q ≢ 0
    → next_of q ≡ 0
    → q ≢ last c cs
    → Linked next_of p (c ∷ cs)
    → Linked (update next_of (last c cs) q) p (c ∷ (cs ++ q ∷ []))
Linked-append next_of q p c [] some_q ends other (e, ne, links) =
    (e, ne, (update_same next_of c q, some_q, ground (arith, ends, other)))
Linked-append next_of q p c (d ∷ cs) some_q ends other (e, ne, links) =
    let inner : c ≢ last d cs = Linked-inner next_of p c d cs (e, ne, links) in
    let same : next_of c ≡ update next_of (last d cs) q c = ground (arith, inner) in
    (
      e,
      ne,
      subst (λ j. Linked (update next_of (last d cs) q) j (d ∷ (cs ++ q ∷ []))) same
          (Linked-append next_of q (next_of c) d cs some_q ends other links),
    )

pub Linked-suffix :
    (next_of : ℕ → ℕ) (p : ℕ) (front back : List ℕ)
    → Linked next_of p (front ++ back)
    → (q : ℕ) × Linked next_of q back
Linked-suffix next_of p [] back links = (p, links)
Linked-suffix next_of p (c ∷ cs) back (e, ne, links) =
    Linked-suffix next_of (next_of c) cs back links

-- Links that differ at the last node only, and there lead to another chain.
pub Linked-splice :
    (next_of next_of' : ℕ → ℕ) (v p c : ℕ) (cs back back' : List ℕ)
    → Linked next_of p (c ∷ (cs ++ back))
    → ((q : ℕ) → 0 < count q (c ∷ cs) → q ≢ last c cs → next_of' q ≡ next_of q)
    → next_of' (last c cs) ≡ v
    → ((q : ℕ) → count q (c ∷ cs) ≤ 1)
    → Linked next_of' v back'
    → Linked next_of' p (c ∷ (cs ++ back'))
Linked-splice next_of next_of' v p c [] back back' (e, ne, links) same at_last distinct rest =
    (e, ne, subst (λ q. Linked next_of' q back') (sym at_last) rest)
Linked-splice next_of next_of' v p c (d ∷ cs) back back' (e, ne, links) same at_last distinct rest =
    let inner : c ≢ last d cs = λ e'. omega (
      arith,
      subst (λ q. 1 ≤ count q (d ∷ cs)) (sym e') (count-last d cs),
      distinct c,
      count_self c (d ∷ cs),
    ) in
    let kept : next_of c ≡ next_of' c = sym (same c (omega (arith, count_self c (d ∷ cs))) inner) in
    (
      e,
      ne,
      subst (λ q. Linked next_of' q (d ∷ (cs ++ back'))) kept
          (Linked-splice next_of next_of' v (next_of c) d cs back back' links
            (λ q h. same q (omega (arith, h))) at_last (λ q. omega (arith, distinct q)) rest),
    )
