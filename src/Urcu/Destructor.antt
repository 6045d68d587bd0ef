-- ===== src/Urcu/Destructor.antt =====
-- LinkedListURCU.hpp: the destructor, run alone.
use smr_implementations.Prelude.{
  List, [], arith, count, count-remove, has, has_of-count, length, refl, remove, suc, true, zero, ℕ,
  ◌+◌, ◌<◌, ◌==◌, ◌∙◌, ◌∷◌, ◌≡◌, ◌≢◌, ◌≤◌,
}
use smr_implementations.Machine.{Mem, head, next, perform, read, valid}
use smr_implementations.Machine.Exec.{exec, exec-then, ok}
use smr_implementations.Machine.Chains.{Linked}
use smr_implementations.Machine.Steps.{false-step, free-step, load-step, ret-step, true-step}
use smr_implementations.Urcu.LinkedList.{delete_chain, destruct}
use smr_implementations.Urcu.Manager

-- The allocated nodes without those of a list.
abbrev pub without : List ℕ → (live : List ℕ) → List ℕ
without [] live = live
without (p ∷ ps) live = without ps (remove p live)

count-without :
    (q : ℕ) (ps live : List ℕ)
    → ((r : ℕ) → count r ps ≤ count r live)
    → count q (without ps live) + count q ps ≡ count q live
count-without q [] live owned = omega arith
count-without q (p ∷ ps) live owned =
    let alive : has p live ≡ true = has_of-count p live (ground (arith, owned p)) in
    let rest =
      count-without q ps (remove p live)
        (λ r. ground (arith, owned r, count-remove p r live alive)) in
    ground (arith, rest, count-remove p q live alive)

module _ (allocator : List ℕ → ℕ) where
  delete_chain_run :
      (cs : List ℕ) (fuel p node : ℕ) (m : Mem)
      → p ≢ 0
      → Linked m.next_of node cs
      → ((q : ℕ) → count q (p ∷ cs) ≤ count q m.live)
      → length cs < fuel
      → exec allocator (delete_chain fuel p node) m
        ≡ ok tt (record m { live = without (p ∷ cs) m.live })
  unfolding delete_chain read valid
  delete_chain_run cs zero p node m ne links owned enough = absurd (omega arith)
  delete_chain_run [] (suc fuel) p node m ne links owned enough =
      let alive : has p m.live ≡ true = has_of-count p m.live (ground (arith, owned p)) in
      true-step allocator _ _ m (node == 0) (rw links refl)
      ∙ free-step allocator _ m p ne alive
      ∙ ret-step allocator tt _
  delete_chain_run (c ∷ cs) (suc fuel) p node m ne (e, c_ne, links) owned enough =
      let alive : has p m.live ≡ true = has_of-count p m.live (ground (arith, owned p)) in
      let m1 : Mem = record m { live = remove p m.live } in
      let owned1 : (q : ℕ) → count q (c ∷ cs) ≤ count q m1.live =
        λ q. ground (arith, owned q, count-remove p q m.live alive) in
      let c_alive : has c m1.live ≡ true = has_of-count c m1.live (ground (arith, owned1 c)) in
      let node_alive : has node m1.live ≡ true = rw e c_alive in
      let rest : exec allocator (delete_chain fuel node (m.next_of node)) m1
          ≡ ok tt (record m { live = without (p ∷ c ∷ cs) m.live }) =
        rw e (delete_chain_run cs fuel c (m.next_of c) m1 c_ne links owned1 (omega arith)) in
      false-step allocator _ _ m (node == 0) (ground arith)
      ∙ free-step allocator _ m p ne alive
      ∙ load-step allocator _ m1 (next node) node_alive
      ∙ rest

  versions_run :
      (m : Mem) → exec allocator Manager.destruct m ≡ ok tt (record m { num_reserved = 0 })
  unfolding Manager.destruct exec perform
  versions_run m = refl

  -- Run alone on a chain of allocated nodes that ends in null, with a round for each node, the
  -- destructor ends; it deletes each node of the chain once, and the versions of the readers, and
  -- changes nothing else.
  pub destruct-without :
      (p : ℕ) (cs : List ℕ) (fuel : ℕ) (m : Mem)
      → Linked m.next_of m.head_word (p ∷ cs)
      → ((q : ℕ) → count q (p ∷ cs) ≤ count q m.live)
      → length (p ∷ cs) ≤ fuel
      → (exec allocator (destruct fuel) m
          ≡ ok tt (record m { live = without (p ∷ cs) m.live; num_reserved = 0 }))
        × ((q : ℕ) → count q (without (p ∷ cs) m.live) + count q (p ∷ cs) ≡ count q m.live)
  unfolding destruct read valid
  destruct-without p cs fuel m (e, ne, links) owned enough =
      let alive : has p m.live ≡ true = has_of-count p m.live (ground (arith, owned p)) in
      let h = m.head_word in
      let h_alive : has h m.live ≡ true = rw e alive in
      let chain : (j : ℕ)
          → j ≡ p
          → exec allocator (delete_chain fuel j (m.next_of j)) m
            ≡ ok tt (record m { live = without (p ∷ cs) m.live }) =
        λ j same.
          rw same (delete_chain_run cs fuel p (m.next_of p) m ne links owned (omega arith)) in
      (
        load-step allocator _ m head refl
            ∙ load-step allocator _ m (next h) h_alive
            ∙ exec-then allocator (delete_chain fuel h (m.next_of h)) _ m (chain h e)
            ∙ versions_run _,
        λ q. count-without q (p ∷ cs) m.live owned,
      )
