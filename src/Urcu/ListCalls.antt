-- ===== src/Urcu/ListCalls.antt =====
-- LinkedListURCU.hpp against a list of keys in order: any calls by any threads, one after the other.
use smr_implementations.Urcu.ListRemove.{remove_found, remove_missing}
use smr_implementations.Urcu.ListUnlink.{behind-IsRemovable, member-behind, unlinked-HasKeys}
use smr_implementations.Urcu.ListChange.{behind, counted, front, linked-HasKeys}
use smr_implementations.Urcu.ListFind.{head_or}
use smr_implementations.Urcu.ListLinks.{replaced}
use smr_implementations.Prelude.{
  Bool, Bool-cases, List, [], arith, count, count-remove, false, has_head, inl, inr, length, refl,
  remove, subst, suc, sym, true, ℕ, ◌%◌, ◌+◌, ◌<◌, ◌∙◌, ◌∷◌, ◌≡◌, ◌≢◌, ◌≤◌,
}
use smr_implementations.Machine.{Mem, max_threads, update}
use smr_implementations.Machine.Chains.{IsFresh, count_self, update_same}
use smr_implementations.Machine.Exec.{Returns, exec, exec-then, ok, returns}
use smr_implementations.Machine.Steps.{ret-step}
use smr_implementations.Benchmark.Calls.{Reply, said}
use smr_implementations.Benchmark.Sets.{
  SetCall, adds, asks, equal, length-with_item, length-without_item, list_step, member, removes,
  set_call, with_item, without_item,
}
use smr_implementations.Urcu.Manager.{unassigned}
use smr_implementations.Urcu.EmptyDequeue.{reading}
use smr_implementations.Urcu.Alone.{IsIdle, raised, unlocked}
use smr_implementations.Urcu.LinkedList.{contains, get_marked, get_unmarked}
use smr_implementations.Urcu.ListSet.{HasKeys, HasKeys-made, HasKeys-others}
use smr_implementations.Urcu.ListAlone.{add_found, add_new, contains_run}
use smr_implementations.Urcu.Benchmark.{linked_list}

-- A call of a key that is not null, by a thread that the constructor has been told of.
abbrev pub IsProper : (n : ℕ) → SetCall → Type 0
IsProper n (adds x t) = (x ≢ 0) × (t < n)
IsProper n (removes x t) = (x ≢ 0) × (t < n)
IsProper n (asks x t) = (x ≢ 0) × (t < n)

-- Nodes have even addresses.
abbrev pub IsAligned : (allocator : List ℕ → ℕ) → Type 0
IsAligned allocator = (live : List ℕ) → allocator live % 2 ≡ 0

unlocked-IsIdle :
    (n thread : ℕ) (m : Mem) → IsIdle n m → IsIdle n (unlocked thread (reading thread m))
unlocked-IsIdle n thread m idle = (idle.0, λ k lt. ground (arith, idle.1 k lt))

-- The memory holds the keys, no thread is reading, and `b` more calls neither overtake NOT_READING
-- nor make the list longer than a walk can be.
pub record Holds (fuel n b : ℕ) (xs : List ℕ) (m : Mem) : Type 0 where
  pub keys : HasKeys xs m
  pub idle : IsIdle n m
  pub early : m.clock_word + b ≤ unassigned
  pub short : length xs + b < suc (suc fuel)

module _ (allocator : List ℕ → ℕ) (fresh : IsFresh allocator) (aligned : IsAligned allocator)
    (less same : ℕ → ℕ → Bool) (fuel n unset : ℕ) where
  -- A call that answers as the list of keys does.
  abbrev pub Answers : (b : ℕ) → List ℕ → SetCall → Mem → Type 0
  Answers b xs k m =
      Returns
        (λ r m'.
          (r ≡ (list_step less same xs k).0) × Holds fuel n b (list_step less same xs k).1 m')
        (exec allocator (set_call (linked_list less same (suc (suc fuel)) n unset) k) m)

  answer :
      (b : ℕ) (xs xs' : List ℕ) (k : SetCall) (m m' : Mem) (r : Reply)
      → list_step less same xs k ≡ (r, xs')
      → exec allocator (set_call (linked_list less same (suc (suc fuel)) n unset) k) m ≡ ok r m'
      → Holds fuel n b xs' m'
      → Answers b xs k m
  answer b xs xs' k m m' r step ran kept = subst (Returns _) (sym ran) (
      subst (λ q. Returns (λ r' m''. (r' ≡ q.0) × Holds fuel n b q.1 m'') (ok r m')) (sym step)
        (returns (refl, kept)))

  asks-Answers :
      (b x t : ℕ) (xs : List ℕ) (m : Mem)
      → t < n
      → Holds fuel n (suc b) xs m
      → Answers b xs (asks x t) m
  unfolding set_call linked_list
  asks-Answers b x t xs m inside h =
      let m' : Mem = unlocked t (reading t m) in
      let s1 : HasKeys xs (reading t m) =
        HasKeys-others xs m m.clock_word (reading t m).reserved m.retired_counts h.keys in
      let ran : exec allocator
            (set_call (linked_list less same (suc (suc fuel)) n unset) (asks x t)) m
          ≡ ok (said (member less same x xs)) m' =
        exec-then allocator
          (contains less same (suc (suc fuel)) (suc (suc fuel)) (suc (suc fuel)) n x unset t) _ m
          (contains_run allocator less same (suc fuel) (suc (suc fuel)) (suc (suc fuel)) n x unset
            xs t m (omega (arith, h.idle.0)) (omega (arith, h.short)) s1)
        ∙ ret-step allocator _ _ in
      subst (Returns _) (sym ran) (
        returns (
          refl,
          record {
            keys = HasKeys-others xs m m.clock_word m'.reserved m.retired_counts h.keys;
            idle = unlocked-IsIdle n t m h.idle;
            early = omega (arith, h.early);
            short = omega (arith, h.short);
          },
        ))

  adds-Answers :
      (b x t : ℕ) (xs : List ℕ) (m : Mem)
      → x ≢ 0
      → t < n
      → Holds fuel n (suc b) xs m
      → Answers b xs (adds x t) m
  unfolding set_call linked_list get_unmarked
  adds-Answers b x t xs m some_x inside h =
      let p = allocator m.live in
      let (some_p, unused) = fresh m.live in
      let registered : t < m.num_reserved = omega (arith, h.idle.0) in
      let enough : length xs < suc (suc fuel) = omega (arith, h.short) in
      let L : List ℕ = remove p (p ∷ m.live) in
      let unchanged : (q : ℕ) → count q m.live ≤ count q L = λ q.
        omega (arith, count-remove p q (p ∷ m.live) (has_head p m.live), count_self p m.live) in
      let (s1, bound) =
        HasKeys-made xs m p x (p ∷ m.live) (reading t m).reserved h.keys unused
          (λ q. omega (arith, count_self p m.live)) in
      let (s2, bound2) =
        HasKeys-made xs m p x L (unlocked t (reading t m)).reserved h.keys unused unchanged in
      let idle' = unlocked-IsIdle n t m h.idle in
      let g : Mem = reading t (record m {
        live = p ∷ m.live;
        item_of = update m.item_of p x;
        next_of = update m.next_of p 0;
      }) in
      let fs = front less same x xs g s1 in
      let curr = head_or (behind less same x xs g s1) s1.first in
      let apart : count p s1.nodes + count p (s1.first ∷ m.tail_word ∷ []) ≡ 0 =
        omega (arith, bound p, unused) in
      let out : count p fs ≡ 0 = omega (arith, counted less same x xs g s1 p, apart) in
      let even : get_unmarked p ≡ p = omega (arith, aligned m.live) in
      elim (Bool-cases (member less same x xs)) [
        | inl old ↦
            answer b xs xs (adds x t) m _ (said false) (rw old refl)
              (exec-then allocator _ _ m (
                  add_found allocator less same fuel (suc (suc fuel)) (suc (suc fuel)) n x unset xs
                    t m registered enough s1 old some_p)
                ∙ ret-step allocator (said false) _)
              (record {
                keys = s2;
                idle = idle';
                early = omega (arith, h.early);
                short = omega (arith, h.short);
              })
        | inr new ↦
            let linked : HasKeys (with_item less same x xs) (replaced fs p curr p g) =
              linked-HasKeys less same x xs g s1 p
                (λ q. omega (arith, bound q, count_self p m.live)) apart some_p even
                (update_same m.item_of p x) some_x in
            answer b xs (with_item less same x xs) (adds x t) m
              (unlocked t (replaced fs p curr p g)) (said true) (rw new refl)
              (exec-then allocator _ _ m (
                  add_new allocator less same fuel (suc (suc fuel)) (suc (suc fuel)) n x unset xs t
                    m registered enough s1 new out)
                ∙ ret-step allocator (said true) _)
              (record {
                keys =
                    HasKeys-others (with_item less same x xs) (replaced fs p curr p g) m.clock_word
                      (unlocked t g).reserved m.retired_counts linked;
                idle = idle';
                early = omega (arith, h.early);
                short = omega (arith, h.short, length-with_item less same x xs);
              })
      ]

  removes-Answers :
      (b x t : ℕ) (xs : List ℕ) (m : Mem)
      → t < n
      → n ≤ max_threads
      → Holds fuel n (suc b) xs m
      → Answers b xs (removes x t) m
  unfolding set_call linked_list
  removes-Answers b x t xs m inside few h =
      let g : Mem = reading t m in
      let registered : t < m.num_reserved = omega (arith, h.idle.0) in
      let enough : length xs < suc (suc fuel) = omega (arith, h.short) in
      let s1 : HasKeys xs g = HasKeys-others xs m m.clock_word g.reserved m.retired_counts h.keys in
      let idle' = unlocked-IsIdle n t m h.idle in
      elim (Bool-cases (member less same x xs)) [
        | inl old ↦
            let (c, cs, at_c, equal) = member-behind less same x xs g s1 old in
            let can = behind-IsRemovable less same x xs g s1 c cs at_c in
            let fs = front less same x xs g s1 in
            let w = get_marked (m.next_of c) in
            let m1 : Mem = record (replaced fs c w (m.next_of c) g) { live = remove c m.live } in
            let left : HasKeys (without_item less same x xs) m1 =
              unlinked-HasKeys less same x xs g s1 c w cs at_c in
            answer b xs (without_item less same x xs) (removes x t) m (raised (unlocked t m1))
              (said true) (rw old refl)
              (exec-then allocator _ _ m (
                  remove_found allocator less same fuel (suc (suc fuel)) (suc fuel) n x unset xs t m
                    registered enough s1 c cs at_c can.out can.some_node can.alive can.even
                    can.even_next equal idle' (omega (arith, h.early)))
                ∙ ret-step allocator (said true) _)
              (record {
                keys =
                    HasKeys-others (without_item less same x xs) m1 (raised m).clock_word
                      (unlocked t g).reserved m.retired_counts left;
                idle = idle';
                early = omega (arith, h.early);
                short = omega (arith, h.short, length-without_item less same x xs);
              })
        | inr missing ↦
            answer b xs xs (removes x t) m (unlocked t g) (said false) (rw missing refl)
              (exec-then allocator _ _ m (
                  remove_missing allocator less same fuel (suc (suc fuel)) (suc (suc fuel)) n x
                    unset xs t m registered enough s1 missing)
                ∙ ret-step allocator (said false) _)
              (record {
                keys =
                    HasKeys-others xs m m.clock_word (unlocked t g).reserved m.retired_counts
                      h.keys;
                idle = idle';
                early = omega (arith, h.early);
                short = omega (arith, h.short);
              })
      ]

  pub call-Answers :
      (b : ℕ) (xs : List ℕ) (k : SetCall) (m : Mem)
      → n ≤ max_threads
      → IsProper n k
      → Holds fuel n (suc b) xs m
      → Answers b xs k m
  call-Answers b xs (adds x t) m few (some_x, inside) h = adds-Answers b x t xs m some_x inside h
  call-Answers b xs (removes x t) m few (some_x, inside) h = removes-Answers b x t xs m inside few h
  call-Answers b xs (asks x t) m few (some_x, inside) h = asks-Answers b x t xs m inside h
