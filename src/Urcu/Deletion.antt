-- ===== src/Urcu/Deletion.antt =====
-- StackURCU.hpp and QueueURCU.hpp under interference: what is deleted only after a grace period.
use smr_implementations.Machine.Interfered.{Reaches, Reaches-Guarded, Reaches-read}
use smr_implementations.Prelude.{
  List, Option, [], arith, decr, none, some, suc, zero, ℕ, ◌<◌, ◌==◌, ◌∷◌, ◌≡◌, ◌≤◌,
}
use smr_implementations.Machine.{
  Prog, act, clock, free, load, read, reservation, retired_count, store, ◌>>◌,
}
use smr_implementations.Machine.Guarded.{Event, Guarded, Guarded-bind, Guarded-if, History}
use smr_implementations.Urcu.Manager.{read_lock, read_unlock, synchronize_rcu}
use smr_implementations.Urcu.Grace.{Waited}
use smr_implementations.Urcu.Waits.{AnyEnd, FreesWaited, Waited-later, read_lock-Guarded, waits}
use smr_implementations.Urcu.Queue
use smr_implementations.Urcu.Stack

module _ (n : ℕ) where
  stack_nodes-Guarded :
      (ps : List ℕ) (thread : ℕ) (h : History)
      → Waited n h
      → Guarded (FreesWaited n) (Stack.delete_nodes ps thread) h AnyEnd
  unfolding Stack.delete_nodes
  stack_nodes-Guarded [] thread h w = tt
  stack_nodes-Guarded (p ∷ ps) thread h w = (
    w,
    λ r. (
      tt,
      λ c. (
        tt,
        λ r'.
            let freed : Event = (free p, r) in
            let loaded : Event = (load (retired_count thread), c) in
            let stored : Event = (store (retired_count thread) (decr c), r') in
            stack_nodes-Guarded ps thread (stored ∷ loaded ∷ freed ∷ h) (
              Waited-later n stored (loaded ∷ freed ∷ h)
                (Waited-later n loaded (freed ∷ h) (Waited-later n freed h w))),
      ),
    ),
  )

  queue_nodes-Guarded :
      (ps : List ℕ) (thread : ℕ) (h : History)
      → Waited n h
      → Guarded (FreesWaited n) (Queue.delete_nodes ps thread) h AnyEnd
  unfolding Queue.delete_nodes
  queue_nodes-Guarded [] thread h w = tt
  queue_nodes-Guarded (p ∷ ps) thread h w = (
    tt,
    λ c. (
      tt,
      λ r.
          let loaded : Event = (load (retired_count thread), c) in
          let stored : Event = (store (retired_count thread) (decr c), r) in
          let w' : Waited n (stored ∷ loaded ∷ h) =
            Waited-later n stored (loaded ∷ h) (Waited-later n loaded h w) in
          (
            w',
            λ r'.
                let freed : Event = (free p, r') in
                queue_nodes-Guarded ps thread (freed ∷ stored ∷ loaded ∷ h)
                  (Waited-later n freed (stored ∷ loaded ∷ h) w'),
          ),
    ),
  )

  pop_loop-Guarded :
      (fuel thread : ℕ) (h : History)
      → Guarded (FreesWaited n) (Stack.pop_loop fuel thread) h AnyEnd
  unfolding Stack.pop_loop read_unlock
  pop_loop-Guarded zero thread h = tt
  pop_loop-Guarded (suc fuel) thread h =
      Guarded-bind (FreesWaited n) (read_lock thread) _ h _ _ (read_lock-Guarded n thread h)
        λ u h' end. (
          tt,
          λ temp.
              Guarded-if _ (temp == 0) _ _ _ _ (λ e. (tt, λ r. tt))
                λ e. (
                  tt,
                  λ now.
                      Guarded-if _ (now == temp) _ _ _ _
                        (λ e'. (
                          tt,
                          λ after. (
                            tt,
                            λ old.
                                Guarded-if _ (old == temp) _ _ _ _ (λ e''. tt)
                                  λ e''. pop_loop-Guarded fuel thread _,
                          ),
                        ))
                        λ e'. (tt, λ r. pop_loop-Guarded fuel thread _),
                ),
        )

  pop_node-Guarded :
      (spins thread : ℕ) (t : Option ℕ) (h : History)
      → Guarded (FreesWaited n) (Stack.pop_node spins n thread t) h AnyEnd
  unfolding Stack.pop_node Stack.delete_retired_nodes read_unlock
  pop_node-Guarded spins thread none h = tt
  pop_node-Guarded spins thread (some t) h = (
    tt,
    λ x. (
      tt,
      λ c. (
        tt,
        λ r. (
          tt,
          λ r'.
              Guarded-bind (FreesWaited n)
                (synchronize_rcu spins n >> Stack.delete_nodes (t ∷ []) thread) _ _ _ _
                (Guarded-bind (FreesWaited n) (synchronize_rcu spins n) _ _ _ _ (waits n spins _)
                  λ u h' w. stack_nodes-Guarded (t ∷ []) thread h' w)
                λ u h' end. tt,
        ),
      ),
    ),
  )

  pop-Guarded :
      (fuel spins thread : ℕ) (h : History)
      → Guarded (FreesWaited n) (Stack.pop fuel spins n thread) h AnyEnd
  unfolding Stack.pop
  pop-Guarded fuel spins thread h =
      Guarded-bind (FreesWaited n) (Stack.pop_loop fuel thread) _ h _ _
        (pop_loop-Guarded fuel thread h) λ t h' end. pop_node-Guarded spins thread t h'

  dequeue_loop-Guarded :
      (fuel thread : ℕ) (h : History)
      → Guarded (FreesWaited n) (Queue.dequeue_loop fuel thread) h AnyEnd
  unfolding Queue.dequeue_loop read_unlock
  dequeue_loop-Guarded zero thread h = tt
  dequeue_loop-Guarded (suc fuel) thread h = (
    tt,
    λ temp1.
        Guarded-bind (FreesWaited n) (read_lock thread) _ _ _ _ (read_lock-Guarded n thread _)
          λ u h' end. (
            tt,
            λ now.
                Guarded-if _ (temp1 == now) _ _ _ _
                  (λ e. (
                    tt,
                    λ temp2. (
                      tt,
                      λ after. (
                        tt,
                        λ still.
                            Guarded-if _ (still == temp1) _ _ _ _
                              (λ e'.
                                Guarded-if _ (after == 0) _ _ _ _ (λ l. tt)
                                  λ l.
                                    Guarded-if _ (temp1 == temp2) _ _ _ _
                                      (λ l'. (tt, λ r. dequeue_loop-Guarded fuel thread _))
                                      λ l'. (
                                        tt,
                                        λ old.
                                            Guarded-if _ (old == temp1) _ _ _ _ (λ o. (tt, λ x. tt))
                                              λ o. dequeue_loop-Guarded fuel thread _,
                                      ))
                              λ e'. dequeue_loop-Guarded fuel thread _,
                      ),
                    ),
                  ))
                  λ e. (tt, λ r. dequeue_loop-Guarded fuel thread _),
          ),
  )

  dequeue_node-Guarded :
      (spins thread : ℕ) (t : Option (ℕ × ℕ)) (h : History)
      → Guarded (FreesWaited n) (Queue.dequeue_node spins n thread t) h AnyEnd
  unfolding Queue.dequeue_node Queue.delete_retired_nodes read_unlock
  dequeue_node-Guarded spins thread none h = tt
  dequeue_node-Guarded spins thread (some (t, x)) h = (
    tt,
    λ c. (
      tt,
      λ r. (
        tt,
        λ r'.
            Guarded-bind (FreesWaited n)
              (synchronize_rcu spins n >> Queue.delete_nodes (t ∷ []) thread) _ _ _ _
              (Guarded-bind (FreesWaited n) (synchronize_rcu spins n) _ _ _ _ (waits n spins _)
                λ u h' w. queue_nodes-Guarded (t ∷ []) thread h' w)
              λ u h' end. tt,
      ),
    ),
  )

  dequeue-Guarded :
      (fuel spins thread : ℕ) (h : History)
      → Guarded (FreesWaited n) (Queue.dequeue fuel spins n thread) h AnyEnd
  unfolding Queue.dequeue
  dequeue-Guarded fuel spins thread h =
      Guarded-bind (FreesWaited n) (Queue.dequeue_loop fuel thread) _ h _ _
        (dequeue_loop-Guarded fuel thread h) λ t h' end. dequeue_node-Guarded spins thread t h'

-- While a reader's version stays at `v` and the updater's is not below `v`, there is no wait for all.
stays-not_Waited :
    (allocator : List ℕ → ℕ) (n k v : ℕ) {A : Type 0} {p q : Prog A} (h : History)
    → k < n
    → Reaches allocator (λ m. (m.reserved k ≡ v) × (v ≤ m.clock_word)) p q h
    → ¬ Waited n h
unfolding read
stays-not_Waited allocator n k v h lt reached (version, at_start, all) =
    let (v', seen, above) = all k lt in
    let (m, (_, held), e) = Reaches-read allocator _ clock version reached at_start in
    let (m', (stays, _), e') = Reaches-read allocator _ (reservation k) v' reached seen in
    omega arith

-- Whatever other threads do meanwhile: while a thread's version stays where it is and the updater's
-- version is not below it, neither a call of `pop` of the RCU stack nor one of `dequeue` of the RCU queue
-- comes to delete a node.
pub pop-dequeue-never_free :
    (allocator : List ℕ → ℕ) (fuel spins n thread k v q : ℕ) (rest : ℕ → Prog ℕ) (h : History)
    → k < n
    → (¬ Reaches allocator
        (λ m. (m.reserved k ≡ v) × (v ≤ m.clock_word))
        (Stack.pop fuel spins n thread)
        (act (free q) rest)
        h)
      × (¬ Reaches allocator
          (λ m. (m.reserved k ≡ v) × (v ≤ m.clock_word))
          (Queue.dequeue fuel spins n thread)
          (act (free q) rest)
          h)
pop-dequeue-never_free allocator fuel spins n thread k v q rest h lt = (
  (λ reached.
      stays-not_Waited allocator n k v h lt reached
        (Reaches-Guarded allocator _ (FreesWaited n) AnyEnd (pop-Guarded n fuel spins thread [])
          reached).0),
  (λ reached.
      stays-not_Waited allocator n k v h lt reached
        (Reaches-Guarded allocator _ (FreesWaited n) AnyEnd (dequeue-Guarded n fuel spins thread [])
          reached).0),
)
