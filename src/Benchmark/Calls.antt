-- ===== src/Benchmark/Calls.antt =====
-- Calls of a container one after the other, against an abstract container of items.
use smr_implementations.Prelude.{
  Bool, List, [], false, if◌then◌else◌, length, refl, suc, true, ℕ, ◌++◌, ◌==◌, ◌∷◌, ◌≡◌,
}
use smr_implementations.Machine.{Mem, Prog, ret, ◌>>=◌}
use smr_implementations.Machine.Exec.{Returns, Returns-bind, exec, returns}
use smr_implementations.Benchmark.{Container}

-- `push` or `enqueue` of an item by a thread, `pop` or `dequeue` by a thread.
pub data Call : Type 0 where
  inserts : (x thread : ℕ) → Call
  takes : (thread : ℕ) → Call

pub data Reply : Type 0 where
  said : Bool → Reply
  gave : ℕ → Reply

unfoldable pub one_call : Container → Call → Prog Reply
one_call c (inserts x t) = do done ← c.insert x t; ret (said done)
one_call c (takes t) = do x ← c.take t; ret (gave x)

-- The item that an abstract container gives, and the others. An empty one gives null.
abbrev pub first : List ℕ → ℕ
first [] = 0
first (x ∷ xs) = x

abbrev pub rest : List ℕ → List ℕ
rest [] = []
rest (x ∷ xs) = xs

-- What an abstract container of items answers to a call, and the items after it.
abbrev pub Step : Type 0
Step = List ℕ → Call → Reply × List ℕ

-- A stack of items, the last one pushed first.
abbrev pub stack_step : Step
stack_step xs (inserts x t) = (said true, x ∷ xs)
stack_step xs (takes t) = (gave (first xs), rest xs)

-- A queue of items, the oldest first, that refuses null.
abbrev pub queue_step : Step
queue_step xs (inserts x t) = if x == 0 then (said false, xs) else (said true, xs ++ x ∷ [])
queue_step xs (takes t) = (gave (first xs), rest xs)

-- Calls `K`, made in turn: of a class, and of an abstract object with the states `S`.
module _ {K : Type 0} where
  unfoldable pub calls : (K → Prog Reply) → List K → Prog (List Reply)
  calls call [] = ret []
  calls call (k ∷ ks) = do r ← call k; rs ← calls call ks; ret (r ∷ rs)

  abbrev pub AllCalls : (K → Type 0) → List K → Type 0
  AllCalls P [] = Unit {0}
  AllCalls P (k ∷ ks) = P k × AllCalls P ks

module _ {K S : Type 0} where
  abbrev pub replies : (S → K → Reply × S) → S → List K → List Reply
  replies step s [] = []
  replies step s (k ∷ ks) = (step s k).0 ∷ replies step (step s k).1 ks

  abbrev pub after : (S → K → Reply × S) → S → List K → S
  after step s [] = s
  after step s (k ∷ ks) = after step (step s k).1 ks

  -- `R b s m`: the memory `m` holds the state `s`, and `b` more calls can be made. If each call keeps
  -- this and answers as the abstract object does, so do sequences of calls.
  module _ (allocator : List ℕ → ℕ) (call : K → Prog Reply) (step : S → K → Reply × S)
      (P : K → Type 0) (R : ℕ → S → Mem → Type 0)
      (call_refines : (b : ℕ) (s : S) (k : K) (m : Mem)
        → P k
        → R (suc b) s m
        → Returns
            (λ r m'. (r ≡ (step s k).0) × R b (step s k).1 m')
            (exec allocator (call k) m)) where
    pub calls_refine :
        (ks : List K) (s : S) (m : Mem)
        → AllCalls P ks
        → R (length ks) s m
        → Returns
            (λ rs m'. (rs ≡ replies step s ks) × R 0 (after step s ks) m')
            (exec allocator (calls call ks) m)
    unfolding calls exec
    calls_refine [] s m p r = returns (refl, r)
    calls_refine (k ∷ ks) s m p r =
        Returns-bind allocator (call k) _ m _ _ (call_refines (length ks) s k m p.0 r)
          λ reply m' (e, r').
            Returns-bind allocator (calls call ks) _ m' _ _ (calls_refine ks (step s k).1 m' p.1 r')
              λ rs m'' (e', r''). returns (cc, r'')
