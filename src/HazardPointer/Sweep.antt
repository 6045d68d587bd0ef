-- ===== src/HazardPointer/Sweep.antt =====
-- hazardpointer.hpp: the loop of `retireNode` over the retired nodes, with no other thread in between.
use smr_implementations.Prelude.{
  Bool, Bool-cases, List, [], append_assoc, arith, count, count-append, count-remove, dec_lt, decr,
  erase_at, erase_at-append, false, get_elem?-append, get_elem?-lt, has, has_of-count,
  if◌then◌else◌, inl, inr, length, length-append, le→ltb, ltb, lt→ltb, remove, subst, subst₂, suc,
  sym, true, zero, ℕ, ◌%◌, ◌++◌, ◌+◌, ◌<◌, ◌^◌, ◌∙◌, ◌∷◌, ◌≡◌, ◌≢◌, ◌≤◌,
}
use smr_implementations.Machine.{Mem, max_threads, perform, update, update-update, update_self}
use smr_implementations.Machine.Exec.{Returns, exec, exec-then, mono, ok, returns}
use smr_implementations.Machine.Steps.{at-step, false-step, size-step, true-step}
use smr_implementations.HazardPointer.Manager.{reclaim, scan_threads, sweep}
use smr_implementations.HazardPointer.Held.{scan_threads_run, thread_holds}

-- What the loop keeps of the nodes from the one that it looks at: it deletes that node if no slot
-- holds it and then passes over the next; from the first node that a slot holds on it keeps all.
unfoldable pub survivors : (held : ℕ → Bool) → List ℕ → List ℕ
survivors held [] = []
survivors held (x ∷ []) = if held x then x ∷ [] else []
survivors held (x ∷ y ∷ ys) = if held x then x ∷ y ∷ ys else y ∷ survivors held ys

-- From memory `m` the nodes `kept` of a thread's retired list are left, the others are deleted, and
-- nothing else changes but the counter, which goes on agreeing with the list's length.
pub record Swept (thread : ℕ) (m : Mem) (kept : List ℕ) (m' : Mem) : Type 0 where
  pub frame : m' ≡ record m {
    retired = update m.retired thread kept;
    live = m'.live;
    retired_counts = update m.retired_counts thread (m'.retired_counts thread);
  }
  pub conserved :
      (q : ℕ) → count q m'.live + count q (m.retired thread) ≡ count q m.live + count q kept
  pub counted :
      m.retired_counts thread ≡ length (m.retired thread) % 2 ^ 64
      → m'.retired_counts thread ≡ length kept % 2 ^ 64

module _ (allocator : List ℕ → ℕ) (thread : ℕ) (registered : ltb thread max_threads ≡ true) where
  reclaim_run :
      (i p : ℕ) (m : Mem)
      → i < length (m.retired thread)
      → p ≢ 0
      → has p m.live ≡ true
      → exec allocator (reclaim i p thread) m
        ≡ ok tt (record m {
          retired = update m.retired thread (erase_at (m.retired thread) i);
          live = remove p m.live;
          retired_counts = update m.retired_counts thread (decr (m.retired_counts thread));
        })
  unfolding exec reclaim perform
  reclaim_run i p m lt ne alive = ground arith

  -- Once `delete_node` is false the loop only counts on.
  sweep_off :
      (fuel n i : ℕ) (m : Mem)
      → ((k : ℕ) → k < n → m.rows k ≡ true)
      → 0 < fuel
      → length (m.retired thread) < fuel + i
      → exec allocator (sweep fuel n i false thread) m ≡ ok tt m
  unfolding sweep exec
  sweep_off zero n i m row some_fuel enough = absurd (omega arith)
  sweep_off (suc fuel) n i m row some_fuel enough = elim (dec_lt i (length (m.retired thread))) [
    | no past ↦
        size-step allocator _ m thread registered
        ∙ false-step allocator _ _ m _ (le→ltb i _ (omega arith))
    | yes lt ↦
        let (p, at_i) = get_elem?-lt (m.retired thread) i lt in
        size-step allocator _ m thread registered
        ∙ true-step allocator _ _ m _ (lt→ltb i _ lt)
        ∙ at-step allocator _ m thread i at_i
        ∙ exec-then allocator (scan_threads n 0 p false) _ m
            (scan_threads_run allocator m n 0 p false (λ k below. row k (omega arith)))
        ∙ sweep_off fuel n (i + 1) m row (omega arith) (omega arith)
  ]

  Swept-refl : (m : Mem) (kept : List ℕ) → m.retired thread ≡ kept → Swept thread m kept m
  Swept-refl m kept same = record {
    frame = λ i. record m {
      retired =
          (subst (λ l. m.retired ≡ update m.retired thread l) same
              (sym (update_self m.retired thread)))
            i;
      retired_counts = sym (update_self m.retired_counts thread) i;
    };
    conserved = λ q. rw same;
    counted = λ c. rw (← same) c;
  }

  -- The memory after a node of the retired list has been deleted.
  abbrev deleted : (i p : ℕ) → Mem → Mem
  deleted i p m = record m {
    retired = update m.retired thread (erase_at (m.retired thread) i);
    live = remove p m.live;
    retired_counts = update m.retired_counts thread (decr (m.retired_counts thread));
  }

  Swept-deleted :
      (p : ℕ) (pre xs kept : List ℕ) (m m' : Mem)
      → m.retired thread ≡ pre ++ p ∷ xs
      → has p m.live ≡ true
      → Swept thread (deleted (length pre) p m) kept m'
      → Swept thread m kept m'
  Swept-deleted p pre xs kept m m' split alive s = record {
    frame = s.frame ∙ λ i. record m {
      retired = update-update m.retired thread (erase_at (m.retired thread) (length pre)) kept i;
      live = m'.live;
      retired_counts =
          update-update m.retired_counts thread (decr (m.retired_counts thread))
            (m'.retired_counts thread) i;
    };
    conserved = λ q. ground (
      arith,
      s.conserved q,
      count-remove p q m.live alive,
      erased,
      count-append q pre xs,
      count-append q pre (p ∷ xs),
    );
    counted =
        λ c. s.counted (ground (arith, erased, length-append pre xs, length-append pre (p ∷ xs)));
  }
    where
      erased : erase_at (m.retired thread) (length pre) ≡ pre ++ xs
      erased = rw split (erase_at-append pre xs p)

  sweep_next :
      (p : ℕ) (pre xs : List ℕ) (fuel n : ℕ) (m : Mem)
      → ((k : ℕ) → k < n → m.rows k ≡ true)
      → m.retired thread ≡ pre ++ p ∷ xs
      → has p m.live ≡ true
      → p ≢ 0
      → thread_holds m.slots n 0 p ≡ false
      → exec allocator (sweep (suc fuel) n (length pre) true thread) m
        ≡ exec allocator (sweep fuel n (length pre + 1) true thread) (deleted (length pre) p m)
  unfolding sweep exec
  sweep_next p pre xs fuel n m row split alive ne free_to_go =
      let inside : length pre < length (m.retired thread) =
        rw split (omega (arith, length-append pre (p ∷ xs))) in
      size-step allocator _ m thread registered
      ∙ true-step allocator _ _ m _ (lt→ltb _ _ inside)
      ∙ at-step allocator _ m thread (length pre) (rw split (get_elem?-append pre xs p))
      ∙ exec-then allocator (scan_threads n 0 p true) _ m
          (scan_threads_run allocator m n 0 p true (λ k below. row k (omega arith)))
      ∙ rw free_to_go (
          exec-then allocator (reclaim (length pre) p thread) _ m
            (reclaim_run (length pre) p m inside ne alive))

  survivors-held :
      (held : ℕ → Bool) (x : ℕ) (xs : List ℕ) → held x ≡ true → survivors held (x ∷ xs) ≡ x ∷ xs
  unfolding survivors
  survivors-held held x [] e = rw e
  survivors-held held x (y ∷ ys) e = rw e

  -- The end of the list: the loop stops.
  sweep_end :
      (fuel n i : ℕ) (d : Bool) (m : Mem)
      → length (m.retired thread) ≤ i
      → exec allocator (sweep (suc fuel) n i d thread) m ≡ ok tt m
  unfolding sweep exec
  sweep_end fuel n i d m past =
      size-step allocator _ m thread registered ∙ false-step allocator _ _ m _ (le→ltb i _ past)

  -- A node that a slot holds: the loop deletes nothing more.
  sweep_held :
      (p : ℕ) (pre xs : List ℕ) (fuel n : ℕ) (m : Mem)
      → ((k : ℕ) → k < n → m.rows k ≡ true)
      → m.retired thread ≡ pre ++ p ∷ xs
      → suc (length xs) < suc fuel
      → thread_holds m.slots n 0 p ≡ true
      → exec allocator (sweep (suc fuel) n (length pre) true thread) m ≡ ok tt m
  unfolding sweep exec
  sweep_held p pre xs fuel n m row split enough held =
      let inside : length (m.retired thread) ≡ length pre + suc (length xs) =
        rw split (length-append pre (p ∷ xs)) in
      size-step allocator _ m thread registered
      ∙ true-step allocator _ _ m _ (lt→ltb (length pre) (length (m.retired thread)) (omega arith))
      ∙ at-step allocator _ m thread (length pre) (rw split (get_elem?-append pre xs p))
      ∙ exec-then allocator (scan_threads n 0 p true) _ m
          (scan_threads_run allocator m n 0 p true (λ k below. row k (omega arith)))
      ∙ rw held (sweep_off fuel n (length pre + 1) m row (omega arith) (omega arith))

  sweep_loose :
      (p : ℕ) (pre xs kept : List ℕ) (fuel n : ℕ) (m : Mem)
      → ((k : ℕ) → k < n → m.rows k ≡ true)
      → m.retired thread ≡ pre ++ p ∷ xs
      → ((q : ℕ) → count q (p ∷ xs) ≤ count q m.live)
      → has 0 (p ∷ xs) ≡ false
      → thread_holds m.slots n 0 p ≡ false
      → (((deleted (length pre) p m).retired thread ≡ pre ++ xs)
          → ((q : ℕ) → count q xs ≤ count q (remove p m.live))
          → Returns
              (λ _. Swept thread (deleted (length pre) p m) kept)
              (exec allocator
                (sweep fuel n (length pre + 1) true thread)
                (deleted (length pre) p m)))
      → Returns
          (λ _. Swept thread m kept)
          (exec allocator (sweep (suc fuel) n (length pre) true thread) m)
  sweep_loose p pre xs kept fuel n m row split owned ne loose rest =
      rw (sweep_next p pre xs fuel n m row split alive (ground arith) loose) (
        mono (rest shorter (λ q. ground (arith, owned q, count-remove p q m.live alive)))
          (λ _ m' s. Swept-deleted p pre xs kept m m' split alive s))
    where
      alive : has p m.live ≡ true
      alive = has_of-count p m.live (ground (arith, owned p))

      erased : erase_at (m.retired thread) (length pre) ≡ pre ++ xs
      erased = rw split (erase_at-append pre xs p)

      shorter : (deleted (length pre) p m).retired thread ≡ pre ++ xs
      shorter = ground (arith, erased)

  -- The loop from the node at the head of `xs` on, with `delete_node` true.
  pub sweep_run :
      (xs pre : List ℕ) (fuel n : ℕ) (m : Mem)
      → ((k : ℕ) → k < n → m.rows k ≡ true)
      → m.retired thread ≡ pre ++ xs
      → length xs < fuel
      → ((q : ℕ) → count q xs ≤ count q m.live)
      → has 0 xs ≡ false
      → Returns
          (λ _. Swept thread m (pre ++ survivors (thread_holds m.slots n 0) xs))
          (exec allocator (sweep fuel n (length pre) true thread) m)
  unfolding survivors
  sweep_run xs pre zero n m row split enough owned ne = absurd (omega arith)
  sweep_run [] pre (suc fuel) n m row split enough owned ne =
      rw (sweep_end fuel n (length pre) true m (rw split (omega (arith, length-append pre []))))
        (returns (Swept-refl m _ split))
  sweep_run (x ∷ xs) pre (suc zero) n m row split enough owned ne = absurd (omega arith)
  sweep_run (x ∷ []) pre (suc (suc fuel)) n m row split enough owned ne =
      elim (Bool-cases (thread_holds m.slots n 0 x)) [
        | inl held ↦
            rw (sweep_held x pre [] (suc fuel) n m row split (omega arith) held)
              (returns (Swept-refl m _ (rw held split)))
        | inr loose ↦ rw loose (
            sweep_loose x pre [] (pre ++ []) (suc fuel) n m row split owned ne loose λ shorter _.
              rw
                (sweep_end fuel n (length pre + 1) true (deleted (length pre) x m)
                  (rw shorter (omega (arith, length-append pre []))))
                (returns (Swept-refl _ _ shorter)))
      ]
  sweep_run (x ∷ y ∷ ys) pre (suc (suc fuel)) n m row split enough owned ne =
      elim (Bool-cases (thread_holds m.slots n 0 x)) [
        | inl held ↦
            rw (sweep_held x pre (y ∷ ys) (suc fuel) n m row split (omega arith) held)
              (returns (Swept-refl m _ (rw held split)))
        | inr loose ↦ rw loose (
            sweep_loose x pre (y ∷ ys) (pre ++ y ∷ survivors (thread_holds m.slots n 0) ys)
              (suc fuel) n m row split owned ne loose
              λ shorter owned'. passed (
                sweep_run ys (pre ++ y ∷ []) (suc fuel) n (deleted (length pre) x m) row
                  (shorter ∙ sym (append_assoc pre (y ∷ []) ys)) (omega arith)
                  (λ q. ground (arith, owned' q)) (ground arith)))
      ]
    where
      passed :
          Returns
            (λ _.
              Swept thread
                (deleted (length pre) x m)
                ((pre ++ y ∷ []) ++ survivors (thread_holds m.slots n 0) ys))
            (exec allocator
              (sweep (suc fuel) n (length (pre ++ y ∷ [])) true thread)
              (deleted (length pre) x m))
          → Returns
              (λ _.
                Swept thread
                  (deleted (length pre) x m)
                  (pre ++ y ∷ survivors (thread_holds m.slots n 0) ys))
              (exec allocator
                (sweep (suc fuel) n (length pre + 1) true thread)
                (deleted (length pre) x m))
      passed r =
          subst₂
            (λ kept i.
              Returns (λ _. Swept thread (deleted (length pre) x m) kept)
                (exec allocator (sweep (suc fuel) n i true thread) (deleted (length pre) x m)))
            (append_assoc pre (y ∷ []) _) (omega (arith, length-append pre (y ∷ []))) r
