-- ===== src/Urcu/QueueCalls.antt =====
-- QueueURCU.hpp against a queue of items: from the constructor on, any calls of one thread.
use smr_implementations.Prelude.{
  List, [], arith, false, length, refl, subst, suc, sym, true, ℕ, ℕ_discrete, ◌++◌, ◌+◌, ◌<◌, ◌∙◌,
  ◌∷◌, ◌≡◌, ◌≢◌, ◌≤◌,
}
use smr_implementations.Machine.{Mem, max_threads, ◌>>◌}
use smr_implementations.Machine.Chains.{IsFresh, update_same}
use smr_implementations.Machine.Exec.{Returns, Returns-bind, exec, exec-then, mono, ok, returns}
use smr_implementations.Machine.Steps.{ret-step}
use smr_implementations.Benchmark.Calls.{
  AllCalls, Call, calls, calls_refine, first, gave, inserts, one_call, queue_step, replies, said,
  takes,
}
use smr_implementations.Urcu.Manager.{unassigned}
use smr_implementations.Urcu.Queue.{dequeue, enqueue}
use smr_implementations.Urcu.Constructed.{counters_run, made, queue_counters}
use smr_implementations.Urcu.Queue
use smr_implementations.Urcu.QueueAlone.{enqueued}
use smr_implementations.Urcu.QueueRefine.{IsQueue, dequeue_run, enqueue_run, enqueued-IsQueue}
use smr_implementations.Urcu.Benchmark.{queue}

-- The calls of one thread.
abbrev pub IsBy : (thread : ℕ) → Call → Type 0
IsBy thread (inserts x t) = thread ≡ t
IsBy thread (takes t) = thread ≡ t

module _ (allocator : List ℕ → ℕ) (fresh : IsFresh allocator) (fuel n thread : ℕ)
    (few : n ≤ max_threads) (inside : thread < n) where
  -- The memory holds the items, and `b` more calls do not overtake NOT_READING.
  abbrev Holds : (b : ℕ) → List ℕ → Mem → Type 0
  Holds b xs m = IsQueue n thread xs m × (m.clock_word + b ≤ unassigned)

  -- A call that answers as the queue of items does.
  abbrev Answers : (b : ℕ) → List ℕ → Call → Mem → Type 0
  Answers b xs k m =
      Returns (λ r m'. (r ≡ (queue_step xs k).0) × Holds b (queue_step xs k).1 m')
        (exec allocator (one_call (queue (suc fuel) n) k) m)

  refused : (b t : ℕ) (xs : List ℕ) (m : Mem) → Holds (suc b) xs m → Answers b xs (inserts 0 t) m
  unfolding one_call queue enqueue
  refused b t xs m (s, early) =
      subst (Returns _) (sym (ret-step allocator (said false) m)) (returns (refl, (s, omega arith)))

  accepted :
      (b x : ℕ) (xs : List ℕ) (m : Mem)
      → x ≢ 0
      → Holds (suc b) xs m
      → Answers b xs (inserts x thread) m
  unfolding one_call queue
  accepted b x xs m some_x (s, early) =
      let ran : exec allocator (one_call (queue (suc fuel) n) (inserts x thread)) m
          ≡ ok (said true) (enqueued (allocator m.live) x thread m) =
        exec-then allocator (enqueue (suc fuel) (suc fuel) n x thread) _ m
          (enqueue_run allocator fresh fuel fuel n x thread xs m some_x inside (omega arith) s)
        ∙ ret-step allocator (said true) _ in
      let step : queue_step xs (inserts x thread) ≡ (said true, xs ++ x ∷ []) =
        ground (arith, some_x) in
      subst (Returns _) (sym ran) (
        subst
          (λ q.
            Returns (λ r m'. (r ≡ q.0) × Holds b q.1 m')
              (ok (said true) (enqueued (allocator m.live) x thread m)))
          (sym step)
          (returns (refl, (enqueued-IsQueue allocator fresh n x thread xs m s, omega arith))))

  taken : (b : ℕ) (xs : List ℕ) (m : Mem) → Holds (suc b) xs m → Answers b xs (takes thread) m
  unfolding one_call queue
  taken b xs m (s, early) =
      let (m', e, s', later) =
        dequeue_run allocator fuel fuel n thread m inside (omega arith) (omega arith) s.quiet xs
          s in
      let ran : exec allocator (one_call (queue (suc fuel) n) (takes thread)) m
          ≡ ok (gave (first xs)) m' =
        exec-then allocator (dequeue (suc fuel) (suc fuel) n thread) _ m e
        ∙ ret-step allocator _ m' in
      subst (Returns _) (sym ran) (returns (refl, (s', omega arith)))

  call_refines :
      (b : ℕ) (xs : List ℕ) (k : Call) (m : Mem)
      → IsBy thread k
      → Holds (suc b) xs m
      → Answers b xs k m
  call_refines b xs (inserts x t) m own holds = elim (ℕ_discrete x 0) [
    | yes e ↦ subst (λ y. Answers b xs (inserts y t) m) (sym e) (refused b t xs m holds)
    | no some_x ↦ subst (λ u. Answers b xs (inserts x u) m) own (accepted b x xs m some_x holds)
  ]
  call_refines b xs (takes t) m own holds =
      subst (λ u. Answers b xs (takes u) m) own (taken b xs m holds)

  -- The constructor makes an empty queue.
  construct-Holds :
      (b : ℕ) (m : Mem)
      → b ≤ unassigned
      → Returns (λ r m'. Holds b [] m') (exec allocator (Queue.construct n) m)
  construct-Holds b m enough =
      let p = allocator m.live in
      let (r, e, idle) = queue_counters allocator n m in
      let m1 : Mem = record (made n p r m) { head_word = p; tail_word = p } in
      let (c, e1) = counters_run allocator n 0 m1 (omega (arith, few)) in
      subst (Returns _) (sym (e ∙ e1)) (
        returns (
          (
            record {
              sentinel = p;
              nodes = [];
              chain = (refl, (fresh m.live).0, update_same m.next_of p 0);
              ends = refl;
              owned = λ q. omega arith;
              contents = refl;
              quiet = (omega arith, λ k lt other. idle k lt);
            },
            omega (arith, enough),
          )))

  -- From the constructor on, in any memory, any calls of `enqueue` and `dequeue` by one thread that it
  -- has been told of answer as a queue of items does that refuses null, provided that the threads are
  -- at most MAX_THREAD_COUNT and the calls no more than the updater's version can count.
  pub own_calls-replies :
      (ks : List Call) (m : Mem)
      → AllCalls (IsBy thread) ks
      → length ks ≤ unassigned
      → Returns
          (λ rs m'. rs ≡ replies queue_step [] ks)
          (exec allocator (Queue.construct n >> calls (one_call (queue (suc fuel) n)) ks) m)
  own_calls-replies ks m own enough =
      Returns-bind allocator (Queue.construct n) _ m _ _ (construct-Holds (length ks) m enough)
        λ u m' holds.
          mono
            (calls_refine allocator (one_call (queue (suc fuel) n)) queue_step (IsBy thread) Holds
              call_refines ks [] m' own holds)
            λ rs m'' done. done.0
