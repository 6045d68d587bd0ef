-- ===== src/Urcu/StackCalls.antt =====
-- StackURCU.hpp against a stack of items: from the constructor on, any calls of `push` and `pop`.
use smr_implementations.Prelude.{
  List, [], arith, inr, length, refl, subst, suc, sym, true, ℕ, ◌+◌, ◌<◌, ◌∙◌, ◌∷◌, ◌≡◌, ◌≤◌,
}
use smr_implementations.Machine.{Mem, max_threads, ◌>>◌}
use smr_implementations.Machine.Chains.{IsFresh, update_same}
use smr_implementations.Machine.Exec.{Returns, Returns-bind, exec, exec-then, mono, ok, returns}
use smr_implementations.Machine.Steps.{ret-step}
use smr_implementations.Benchmark.Calls.{
  AllCalls, Call, calls, calls_refine, first, gave, inserts, one_call, replies, said, stack_step,
  takes,
}
use smr_implementations.Urcu.Manager.{unassigned}
use smr_implementations.Urcu.Constructed.{counters_run, made, stack_counters}
use smr_implementations.Urcu.Stack
use smr_implementations.Urcu.Stack.{pop, push}
use smr_implementations.Urcu.StackAlone.{push-pushed, pushed}
use smr_implementations.Urcu.StackRefine.{IsStack, pop_run, pushed-IsStack}
use smr_implementations.Urcu.Benchmark.{stack}

-- The thread of a call is one that the constructor has been told of.
abbrev pub IsThread : (n : ℕ) → Call → Type 0
IsThread n (inserts x t) = t < n
IsThread n (takes t) = t < n

module _ (allocator : List ℕ → ℕ) (fresh : IsFresh allocator) (fuel n : ℕ)
    (few : n ≤ max_threads) where
  -- The memory holds the items, and `b` more calls do not overtake NOT_READING.
  abbrev Holds : (b : ℕ) → List ℕ → Mem → Type 0
  Holds b xs m = IsStack n xs m × (m.clock_word + b ≤ unassigned)

  call_refines :
      (b : ℕ) (xs : List ℕ) (k : Call) (m : Mem)
      → IsThread n k
      → Holds (suc b) xs m
      → Returns
          (λ r m'. (r ≡ (stack_step xs k).0) × Holds b (stack_step xs k).1 m')
          (exec allocator (one_call (stack (suc fuel) n) k) m)
  unfolding one_call stack
  call_refines b xs (inserts x t) m inside (s, early) =
      let ran : exec allocator (one_call (stack (suc fuel) n) (inserts x t)) m
          ≡ ok (said true) (pushed (allocator m.live) x t m) =
        exec-then allocator (push (suc fuel) x t) _ m
          (push-pushed allocator t m (omega (arith, s.idle.0)) fuel x)
        ∙ ret-step allocator (said true) _ in
      subst (Returns _) (sym ran)
        (returns (refl, (pushed-IsStack allocator fresh n x t xs m s, omega arith)))
  call_refines b xs (takes t) m inside (s, early) =
      let (m', e, s', later) =
        pop_run allocator fuel fuel n t m inside (omega arith) (omega arith) s.idle s.nodes xs
          s.bottom s.sentinel s.chain s.owned s.contents in
      let ran : exec allocator (one_call (stack (suc fuel) n) (takes t)) m
          ≡ ok (gave (first xs)) m' =
        exec-then allocator (pop (suc fuel) (suc fuel) n t) _ m e ∙ ret-step allocator _ m' in
      subst (Returns _) (sym ran) (returns (refl, (s', omega arith)))

  -- The constructor makes an empty stack.
  construct-Holds :
      (b : ℕ) (m : Mem)
      → b ≤ unassigned
      → Returns (λ r m'. Holds b [] m') (exec allocator (Stack.construct n) m)
  construct-Holds b m enough =
      let p = allocator m.live in
      let (r, e, idle) = stack_counters allocator n m in
      let m1 : Mem = record (made n p r m) { top_word = p } in
      let (c, e1) = counters_run allocator n 0 m1 (omega (arith, few)) in
      let m2 : Mem = record m1 { retired_counts = c } in
      subst (Returns _) (sym (e ∙ e1)) (
        returns (
          (
            record {
              nodes = p ∷ [];
              bottom = 0 ∷ [];
              sentinel = inr refl;
              chain = (refl, (fresh m.live).0, update_same m.next_of p 0);
              owned = λ q. omega arith;
              contents = λ i. update_same m.item_of p 0 i ∷ [];
              idle = (omega arith, idle);
            },
            omega (arith, enough),
          )))

  -- From the constructor on, in any memory, any calls of `push` and `pop` by threads that it has been
  -- told of, one after the other, answer as a stack of items does, provided that the threads are at
  -- most MAX_THREAD_COUNT and the calls no more than the updater's version can count.
  pub calls-replies :
      (ks : List Call) (m : Mem)
      → AllCalls (IsThread n) ks
      → length ks ≤ unassigned
      → Returns
          (λ rs m'. rs ≡ replies stack_step [] ks)
          (exec allocator (Stack.construct n >> calls (one_call (stack (suc fuel) n)) ks) m)
  calls-replies ks m threads enough =
      Returns-bind allocator (Stack.construct n) _ m _ _ (construct-Holds (length ks) m enough)
        λ u m' holds.
          mono
            (calls_refine allocator (one_call (stack (suc fuel) n)) stack_step (IsThread n) Holds
              call_refines ks [] m' threads holds)
            λ rs m'' done. done.0
