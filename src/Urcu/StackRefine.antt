-- ===== src/Urcu/StackRefine.antt =====
-- StackURCU.hpp against a stack of items: calls by any threads, one after the other.
use smr_implementations.Prelude.{
  List, [], ap, arith, count, count-remove, has, has_of-count, inl, inr, map, refl, subst, suc, sym,
  true, ℕ, ◌++◌, ◌+◌, ◌<◌, ◌∙◌, ◌∷◌, ◌≡◌, ◌≢◌, ◌≤◌, ◌⊎◌,
}
use smr_implementations.Machine.{Mem, max_threads, update}
use smr_implementations.Machine.Chains.{IsFresh, Linked, Linked-update, map-update, update_same}
use smr_implementations.Machine.Exec.{exec, ok}
use smr_implementations.Benchmark.Calls.{first, rest}
use smr_implementations.Urcu.Manager.{unassigned}
use smr_implementations.Urcu.EmptyDequeue.{reading}
use smr_implementations.Urcu.Stack.{pop}
use smr_implementations.Urcu.Alone.{IsIdle, unlocked}
use smr_implementations.Urcu.StackAlone.{pop-empty, pop-popped, popped, pushed}

-- The memory holds the items `xs`, the last one pushed first. The null item of the node that the
-- constructor makes is below them until it has been popped.
pub record IsStack (n : ℕ) (xs : List ℕ) (m : Mem) : Type 0 where
  pub nodes : List ℕ
  pub bottom : List ℕ
  pub sentinel : (bottom ≡ []) ⊎ (bottom ≡ 0 ∷ [])
  pub chain : Linked m.next_of m.top_word nodes
  pub owned : (q : ℕ) → count q nodes ≤ count q m.live
  pub contents : map m.item_of nodes ≡ xs ++ bottom
  pub idle : IsIdle n m

module _ (allocator : List ℕ → ℕ) (fresh : IsFresh allocator) where
  pub pushed-IsStack :
      (n x thread : ℕ) (xs : List ℕ) (m : Mem)
      → IsStack n xs m
      → IsStack n (x ∷ xs) (pushed (allocator m.live) x thread m)
  pushed-IsStack n x thread xs m s =
      let p = allocator m.live in
      let unused : count p s.nodes ≡ 0 = omega (arith, s.owned p, fresh m.live) in
      record {
        nodes = p ∷ s.nodes;
        bottom = s.bottom;
        sentinel = s.sentinel;
        chain = (
          refl,
          (fresh m.live).0,
          subst (λ q. Linked (pushed p x thread m).next_of q s.nodes)
              (sym (update_same (update m.next_of p 0) p m.top_word))
              (Linked-update (update m.next_of p 0) p m.top_word m.top_word s.nodes unused
                (Linked-update m.next_of p 0 m.top_word s.nodes unused s.chain)),
        );
        owned = λ q. omega (arith, s.owned q);
        contents = λ i.
            update_same m.item_of p x i ∷ (map-update m.item_of p x s.nodes unused ∙ s.contents) i;
        idle = (s.idle.0, λ k lt. ground (arith, s.idle.1 k lt));
      }

module _ (allocator : List ℕ → ℕ) (fuel spins n thread : ℕ) (m : Mem) (inside : thread < n)
    (counted : thread < max_threads) (early : m.clock_word < unassigned) (idle : IsIdle n m) where
  -- A `pop` that returns `v`, leaves the items `xs` and raises the updater's version at most by one.
  abbrev pub Pops : (v : ℕ) → List ℕ → Type 0
  Pops v xs =
      (m' : Mem) × (exec allocator (pop (suc fuel) (suc spins) n thread) m ≡ ok v m')
      × IsStack n xs m'
      × (m'.clock_word ≤ m.clock_word + 1)

  pop_empty_run : m.top_word ≡ 0 → Pops 0 []
  pop_empty_run empty = (
    unlocked thread (reading thread m),
    pop-empty allocator thread m (omega (arith, idle.0)) fuel (suc spins) n empty,
    record {
      nodes = [];
      bottom = [];
      sentinel = inl refl;
      chain = empty;
      owned = λ q. omega arith;
      contents = refl;
      idle = (idle.0, λ k lt. ground (arith, idle.1 k lt));
    },
    omega arith,
  )

  pop_top_run :
      (t : ℕ) (ns xs bottom : List ℕ)
      → (bottom ≡ []) ⊎ (bottom ≡ 0 ∷ [])
      → Linked m.next_of m.top_word (t ∷ ns)
      → ((q : ℕ) → count q (t ∷ ns) ≤ count q m.live)
      → map m.item_of ns ≡ xs ++ bottom
      → Pops (m.item_of t) xs
  pop_top_run t ns xs bottom sentinel (e, ne, links) owned contents =
      let h = m.top_word in
      let owned' : (q : ℕ) → count q (h ∷ ns) ≤ count q m.live =
        λ q. subst (λ j. count q (j ∷ ns) ≤ count q m.live) (sym e) (owned q) in
      let alive : has h m.live ≡ true = has_of-count h m.live (ground (arith, owned' h)) in
      let some_top : h ≢ 0 = ground (arith, e) in
      let ran : exec allocator (pop (suc fuel) (suc spins) n thread) m
          ≡ ok (m.item_of h) (popped thread m) =
        pop-popped allocator thread m (omega (arith, idle.0)) fuel spins n some_top alive counted
          (idle.0, λ k lt. ground (arith, idle.1 k lt)) early in
      (
        popped thread m,
        ran ∙ ap (λ j. ok (m.item_of j) (popped thread m)) e,
        record {
          nodes = ns;
          bottom = bottom;
          sentinel = sentinel;
          chain = subst (λ j. Linked m.next_of (m.next_of j) ns) (sym e) links;
          owned = λ q. ground (arith, owned' q, count-remove h q m.live alive);
          contents = contents;
          idle = (idle.0, λ k lt. ground (arith, idle.1 k lt));
        },
        omega arith,
      )

  pub pop_run :
      (ns xs bottom : List ℕ)
      → (bottom ≡ []) ⊎ (bottom ≡ 0 ∷ [])
      → Linked m.next_of m.top_word ns
      → ((q : ℕ) → count q ns ≤ count q m.live)
      → map m.item_of ns ≡ xs ++ bottom
      → Pops (first xs) (rest xs)
  pop_run [] [] bottom sentinel links owned contents = pop_empty_run links
  pop_run [] (x ∷ xs) bottom sentinel links owned contents = cc
  pop_run (t ∷ ns) [] bottom (inl e) links owned contents = cc
  pop_run (t ∷ ns) [] bottom (inr e) links owned contents =
      let item_t : m.item_of t ≡ 0 = cc in
      let none_left : map m.item_of ns ≡ [] ++ [] = cc in
      subst (λ v. Pops v []) item_t (pop_top_run t ns [] [] (inl refl) links owned none_left)
  pop_run (t ∷ ns) (x ∷ xs) bottom sentinel links owned contents =
      let item_t : m.item_of t ≡ x = cc in
      let others : map m.item_of ns ≡ xs ++ bottom = cc in
      subst (λ v. Pops v xs) item_t (pop_top_run t ns xs bottom sentinel links owned others)
