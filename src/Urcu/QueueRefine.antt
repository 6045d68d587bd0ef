-- ===== src/Urcu/QueueRefine.antt =====
-- QueueURCU.hpp against a queue of items: calls by one thread.
use smr_implementations.Prelude.{
  List, [], ap, ap₂, arith, count, count-append, count-remove, has, has_of-count, map, map-append,
  refl, subst, suc, sym, true, ℕ, ℕ_discrete, ◌++◌, ◌+◌, ◌<◌, ◌∙◌, ◌∷◌, ◌≡◌, ◌≢◌, ◌≤◌,
}
use smr_implementations.Machine.{Mem, max_threads, update}
use smr_implementations.Machine.Chains.{
  IsFresh, Linked, Linked-append, Linked-inner, Linked-last, Linked-update, count-last, last,
  last-append, map-update, update_same,
}
use smr_implementations.Machine.Exec.{exec, ok}
use smr_implementations.Benchmark.Calls.{first, rest}
use smr_implementations.Urcu.Manager.{unassigned}
use smr_implementations.Urcu.EmptyDequeue.{dequeue-empty, reading}
use smr_implementations.Urcu.Queue.{dequeue, enqueue}
use smr_implementations.Urcu.Alone.{IsIdle, unlocked}
use smr_implementations.Urcu.QueueAlone.{dequeue-dequeued, dequeued, enqueue-enqueued, enqueued}

-- No thread but this one is reading.
abbrev pub IsQuiet : (n thread : ℕ) → Mem → Type 0
IsQuiet n thread m =
    (n ≤ m.num_reserved) × ((k : ℕ) → k < n → k ≢ thread → unassigned ≤ m.reserved k)

-- The memory holds the items `xs`, the oldest first, behind a node whose item does not count.
pub record IsQueue (n thread : ℕ) (xs : List ℕ) (m : Mem) : Type 0 where
  pub sentinel : ℕ
  pub nodes : List ℕ
  pub chain : Linked m.next_of m.head_word (sentinel ∷ nodes)
  pub ends : m.tail_word ≡ last sentinel nodes
  pub owned : (q : ℕ) → count q (sentinel ∷ nodes) ≤ count q m.live
  pub contents : map m.item_of nodes ≡ xs
  pub quiet : IsQuiet n thread m

-- When the thread has called `readUnlock`, no thread is reading.
pub IsIdle-unlocked :
    (n thread : ℕ) (m : Mem) → IsQuiet n thread m → IsIdle n (unlocked thread (reading thread m))
IsIdle-unlocked n thread m quiet = (
  quiet.0,
  λ k lt. elim (ℕ_discrete k thread) [
    | yes e ↦ ground (arith, e)
    | no ne ↦ ground (arith, quiet.1 k lt ne)
  ],
)

module _ (allocator : List ℕ → ℕ) (fresh : IsFresh allocator) where
  pub enqueued-IsQueue :
      (n x thread : ℕ) (xs : List ℕ) (m : Mem)
      → IsQueue n thread xs m
      → IsQueue n thread (xs ++ x ∷ []) (enqueued (allocator m.live) x thread m)
  enqueued-IsQueue n x thread xs m s =
      let p = allocator m.live in
      let unused : count p (s.sentinel ∷ s.nodes) ≡ 0 = omega (arith, s.owned p, fresh m.live) in
      let other : p ≢ last s.sentinel s.nodes = λ e. omega (
        arith,
        unused,
        subst (λ q. 1 ≤ count q (s.sentinel ∷ s.nodes)) (sym e) (count-last s.sentinel s.nodes),
      ) in
      let below : count p s.nodes ≡ 0 = ground (arith, unused) in
      record {
        sentinel = s.sentinel;
        nodes = s.nodes ++ p ∷ [];
        chain =
            subst
              (λ t.
                Linked (update (update m.next_of p 0) t p) m.head_word
                  (s.sentinel ∷ (s.nodes ++ p ∷ [])))
              (sym s.ends)
              (Linked-append (update m.next_of p 0) p m.head_word s.sentinel s.nodes
                (fresh m.live).0 (update_same m.next_of p 0) other
                (Linked-update m.next_of p 0 m.head_word (s.sentinel ∷ s.nodes) unused s.chain));
        ends = sym (last-append s.sentinel p s.nodes);
        owned = λ q. ground (arith, s.owned q, count-append q s.nodes (p ∷ []));
        contents =
            map-append (update m.item_of p x) s.nodes (p ∷ [])
            ∙ ap₂ (λ ys z. ys ++ z ∷ []) (map-update m.item_of p x s.nodes below ∙ s.contents)
                (update_same m.item_of p x);
        quiet = (s.quiet.0, λ k lt ne. ground (arith, s.quiet.1 k lt ne));
      }

  -- On such a queue `enqueue` of an item ends.
  pub enqueue_run :
      (fuel spins n x thread : ℕ) (xs : List ℕ) (m : Mem)
      → x ≢ 0
      → thread < n
      → m.clock_word < unassigned
      → IsQueue n thread xs m
      → exec allocator (enqueue (suc fuel) (suc spins) n x thread) m
        ≡ ok true (enqueued (allocator m.live) x thread m)
  enqueue_run fuel spins n x thread xs m some_x inside early s =
      let p = allocator m.live in
      let t = m.tail_word in
      let present : 1 ≤ count t (s.sentinel ∷ s.nodes) =
        subst (λ q. 1 ≤ count q (s.sentinel ∷ s.nodes)) (sym s.ends)
          (count-last s.sentinel s.nodes) in
      let here : 1 ≤ count t m.live = omega (arith, present, s.owned t) in
      let ends : m.next_of t ≡ 0 =
        ap m.next_of s.ends ∙ Linked-last m.next_of m.head_word s.sentinel s.nodes s.chain in
      enqueue-enqueued allocator thread m (omega (arith, inside, s.quiet.0)) fuel spins n x some_x
        (has_of-count t (p ∷ m.live) (ground (arith, here))) (ground (arith, ends))
        (IsIdle-unlocked n thread m s.quiet) early

module _ (allocator : List ℕ → ℕ) (fuel spins n thread : ℕ) (m : Mem) (inside : thread < n)
    (counted : thread < max_threads) (early : m.clock_word < unassigned)
    (quiet : IsQuiet n thread m) where
  -- A `dequeue` that returns `v`, leaves the items `xs` and raises the updater's version at most by one.
  abbrev pub Dequeues : (v : ℕ) → List ℕ → Type 0
  Dequeues v xs =
      (m' : Mem) × (exec allocator (dequeue (suc fuel) (suc spins) n thread) m ≡ ok v m')
      × IsQueue n thread xs m'
      × (m'.clock_word ≤ m.clock_word + 1)

  dequeue_empty_run :
      (h : ℕ)
      → Linked m.next_of m.head_word (h ∷ [])
      → m.tail_word ≡ h
      → ((q : ℕ) → count q (h ∷ []) ≤ count q m.live)
      → Dequeues 0 []
  dequeue_empty_run h (e, ne, links) ends owned = (
    reading thread m,
    dequeue-empty allocator thread m (omega (arith, quiet.0)) fuel (suc spins) n
        (subst (λ q. has q m.live ≡ true) (sym e) (has_of-count h m.live (ground (arith, owned h))))
        (ap m.next_of e ∙ links),
    record {
      sentinel = h;
      nodes = [];
      chain = (e, ne, links);
      ends = ends;
      owned = owned;
      contents = refl;
      quiet = (quiet.0, λ k lt other. ground (arith, quiet.1 k lt other));
    },
    omega arith,
  )

  dequeue_next_run :
      (h d : ℕ) (ds : List ℕ)
      → Linked m.next_of m.head_word (h ∷ d ∷ ds)
      → m.tail_word ≡ last d ds
      → ((q : ℕ) → count q (h ∷ d ∷ ds) ≤ count q m.live)
      → Dequeues (m.item_of d) (map m.item_of ds)
  dequeue_next_run h d ds (e, ne, (e', ne', links)) ends owned =
      let hw = m.head_word in
      let owned' : (q : ℕ) → count q (hw ∷ d ∷ ds) ≤ count q m.live =
        λ q. subst (λ j. count q (j ∷ d ∷ ds) ≤ count q m.live) (sym e) (owned q) in
      let alive : has hw m.live ≡ true = has_of-count hw m.live (ground (arith, owned' hw)) in
      let after : m.next_of hw ≡ d = ap m.next_of e ∙ e' in
      let alive' : has (m.next_of hw) m.live ≡ true =
        subst (λ q. has q m.live ≡ true) (sym after)
          (has_of-count d m.live (ground (arith, owned d))) in
      let apart : hw ≢ m.tail_word =
        λ same. Linked-inner m.next_of hw h d ds (e, ne, (e', ne', links)) (sym e ∙ same ∙ ends) in
      let ran : exec allocator (dequeue (suc fuel) (suc spins) n thread) m
          ≡ ok (m.item_of (m.next_of hw)) (dequeued thread m) =
        dequeue-dequeued allocator thread m (omega (arith, quiet.0)) fuel spins n alive
          (λ z. ne (sym e ∙ z)) (λ z. ne' (sym after ∙ z)) apart alive' counted
          (IsIdle-unlocked n thread m quiet) early in
      (
        dequeued thread m,
        ran ∙ ap (λ j. ok (m.item_of j) (dequeued thread m)) after,
        record {
          sentinel = d;
          nodes = ds;
          chain = (after, ne', links);
          ends = ends;
          owned = λ q. ground (arith, owned' q, count-remove hw q m.live alive);
          contents = refl;
          quiet = (quiet.0, λ k lt other. ground (arith, quiet.1 k lt other));
        },
        omega arith,
      )

  pub dequeue_run : (xs : List ℕ) → IsQueue n thread xs m → Dequeues (first xs) (rest xs)
  dequeue_run xs s = by_nodes s.nodes s.chain s.ends s.owned s.contents
    where
      by_nodes :
          (ns : List ℕ)
          → Linked m.next_of m.head_word (s.sentinel ∷ ns)
          → m.tail_word ≡ last s.sentinel ns
          → ((q : ℕ) → count q (s.sentinel ∷ ns) ≤ count q m.live)
          → map m.item_of ns ≡ xs
          → Dequeues (first xs) (rest xs)
      by_nodes [] links ends owned contents =
          subst (λ ys. Dequeues (first ys) (rest ys)) contents
            (dequeue_empty_run s.sentinel links ends owned)
      by_nodes (d ∷ ds) links ends owned contents =
          subst (λ ys. Dequeues (first ys) (rest ys)) contents
            (dequeue_next_run s.sentinel d ds links ends owned)
