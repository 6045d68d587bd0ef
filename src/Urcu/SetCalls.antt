-- ===== src/Urcu/SetCalls.antt =====
-- LinkedListURCU.hpp against a set: from the constructor on, any calls by any threads, one
-- after the other.
use smr_implementations.Prelude.{
  Bool, List, [], arith, false, length, refl, subst, suc, sym, ℕ, ℕ_discrete, ◌<◌, ◌∙◌, ◌∷◌, ◌≡◌,
  ◌≢◌, ◌≤◌,
}
use smr_implementations.Machine.{Mem, max_threads, update, ◌>>◌}
use smr_implementations.Machine.Chains.{IsFresh, update_same}
use smr_implementations.Machine.Exec.{Returns, Returns-bind, exec, mono, returns}
use smr_implementations.Benchmark.Calls.{AllCalls, calls, calls_refine, replies}
use smr_implementations.Benchmark.Sets.{
  SetCall, below, equal, list-set, list_step, set_call, set_step,
}
use smr_implementations.Urcu.Manager.{unassigned}
use smr_implementations.Urcu.LinkedList
use smr_implementations.Urcu.LinkedList.{get_unmarked}
use smr_implementations.Urcu.Constructed.{counters_run, list_counters, made}
use smr_implementations.Urcu.ListCalls.{Holds, IsAligned, IsProper, call-Answers}
use smr_implementations.Urcu.Benchmark.{linked_list}

module _ (allocator : List ℕ → ℕ) (fresh : IsFresh allocator) (aligned : IsAligned allocator)
    (fuel n unset : ℕ) (few : n ≤ max_threads) where
  -- The constructor makes an empty list.
  construct-Holds :
      (less same : ℕ → ℕ → Bool) (b : ℕ) (m : Mem)
      → b ≤ unassigned
      → b < suc (suc fuel)
      → Returns (λ r m'. Holds fuel n b [] m') (exec allocator (LinkedList.construct n) m)
  unfolding get_unmarked
  construct-Holds less same b m enough short =
      let p = allocator m.live in
      let q = allocator (p ∷ m.live) in
      let (r, e, idle) = list_counters allocator n m in
      let m1 : Mem = record (made n p r m) {
        head_word = p;
        tail_word = q;
        live = q ∷ p ∷ m.live;
        item_of = update (update m.item_of p 0) q 0;
        next_of = update (update (update m.next_of p 0) q 0) p q;
      } in
      let (c, e1) = counters_run allocator n 0 m1 (omega (arith, few)) in
      let (some_p, new_p) = fresh m.live in
      let (some_q, new_q) = fresh (p ∷ m.live) in
      let apart : p ≢ q = ground (arith, new_q) in
      let ends : m1.next_of q ≡ 0 = ground (arith, apart) in
      subst (Returns _) (sym (e ∙ e1)) (
        returns (record {
          keys = record {
            nodes = [];
            first = p;
            chain =
                (refl, some_p, (update_same (update (update m.next_of p 0) q 0) p q, some_q, ends));
            distinct = λ k. ground (arith, apart);
            owned = λ k. omega arith;
            even = λ k h. elim (ℕ_discrete p k) [
              | yes at_p ↦ subst (λ j. get_unmarked j ≡ j) at_p (omega (arith, aligned m.live))
              | no not_p ↦ elim (ℕ_discrete q k) [
                | yes at_q ↦
                    subst (λ j. get_unmarked j ≡ j) at_q (omega (arith, aligned (p ∷ m.live)))
                | no not_q ↦ absurd (ground (arith, h, not_p, not_q))
              ]
            ];
            contents = refl;
            some_keys = refl;
          };
          idle = (omega arith, idle);
          early = omega (arith, enough);
          short = omega (arith, short);
        }))

  -- From the constructor on, in any memory, any calls of `add`, `remove` and `contains` of keys that are
  -- not null, by threads that it has been told of, one after the other, answer as a set of values does.
  -- Here `<` and `==` compare the ranks of the values, new nodes have even addresses, the threads are at
  -- most MAX_THREAD_COUNT, the fuel is at least two and more than the calls, and these are no more than
  -- the updater's version can count.
  pub set_calls-replies :
      (rank : ℕ → ℕ) (ks : List SetCall) (m : Mem)
      → AllCalls (IsProper n) ks
      → length ks ≤ unassigned
      → length ks < suc (suc fuel)
      → Returns
          (λ rs m'. rs ≡ replies (set_step rank) (λ _. false) ks)
          (exec allocator
            (LinkedList.construct n
              >> calls
                  (set_call (linked_list (below rank) (equal rank) (suc (suc fuel)) n unset))
                  ks)
            m)
  set_calls-replies rank ks m proper enough short =
      Returns-bind allocator (LinkedList.construct n) _ m _ _
        (construct-Holds (below rank) (equal rank) (length ks) m enough short)
        λ u m' holds.
          mono
            (calls_refine allocator
              (set_call (linked_list (below rank) (equal rank) (suc (suc fuel)) n unset))
              (list_step (below rank) (equal rank)) (IsProper n) (Holds fuel n)
              (λ b xs k m'' p h.
                call-Answers allocator fresh aligned (below rank) (equal rank) fuel n unset b xs k
                  m'' few p h)
              ks [] m' proper holds)
            λ rs m'' done. done.0 ∙ list-set rank [] (λ _. false) ks tt (λ r. refl)
