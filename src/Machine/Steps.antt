-- ===== src/Machine/Steps.antt =====
-- One action at the head of a method that runs alone.
use smr_implementations.Prelude.{
  ==_refl, Bool, List, [], arith, false, get_elem?, has, if◌then◌else◌, length, ltb, refl, remove,
  some, true, ℕ, ◌%◌, ◌++◌, ◌∷◌, ◌≡◌, ◌≢◌,
}
use smr_implementations.Machine.{
  Loc, Mem, Prog, act, alloc, at, cas, free, load, max_threads, perform, push_back, read, remainder,
  ret, size, store, update, valid, write,
}
use smr_implementations.Machine.Exec.{exec, exec-act, ok}

module _ {ℓ} (allocator : List ℕ → ℕ) {A : Type ℓ} (k : ℕ → Prog A) (m : Mem) where
  pub load-step :
      (l : Loc)
      → valid m l ≡ true
      → exec allocator (act (load l) k) m ≡ exec allocator (k (read m l)) m
  unfolding perform
  load-step l v = exec-act allocator (load l) k m m _ (rw v)

  pub store-step :
      (l : Loc) (x : ℕ)
      → valid m l ≡ true
      → exec allocator (act (store l x) k) m ≡ exec allocator (k 0) (write m l x)
  unfolding perform
  store-step l x v = exec-act allocator (store l x) k m _ 0 (rw v)

  pub size-step :
      (t : ℕ)
      → ltb t max_threads ≡ true
      → exec allocator (act (size t) k) m ≡ exec allocator (k (length (m.retired t))) m
  unfolding perform
  size-step t v = exec-act allocator (size t) k m m _ (rw v)

  pub at-step :
      (t i : ℕ) {p : ℕ}
      → get_elem? (m.retired t) i ≡ some p
      → exec allocator (act (at t i) k) m ≡ exec allocator (k p) m
  unfolding perform
  at-step t i v = exec-act allocator (at t i) k m m _ (rw (v, perform))

  pub push_back-step :
      (t p : ℕ)
      → ltb t max_threads ≡ true
      → exec allocator (act (push_back t p) k) m
        ≡ exec allocator (k 0) (record m { retired = update m.retired t (m.retired t ++ p ∷ []) })
  unfolding perform
  push_back-step t p v = exec-act allocator (push_back t p) k m _ 0 (rw v)

  pub alloc-step :
      exec allocator (act alloc k) m
      ≡ exec allocator (k (allocator m.live)) (record m { live = allocator m.live ∷ m.live })
  unfolding perform
  alloc-step = exec-act allocator alloc k m _ (allocator m.live) refl

  pub free-step :
      (p : ℕ)
      → p ≢ 0
      → has p m.live ≡ true
      → exec allocator (act (free p) k) m
        ≡ exec allocator (k 0) (record m { live = remove p m.live })
  unfolding perform
  free-step p ne alive = exec-act allocator (free p) k m _ 0 (ground arith)

  -- A compare-and-exchange that succeeds.
  pub cas-step :
      (l : Loc) (expected v : ℕ)
      → valid m l ≡ true
      → read m l ≡ expected
      → exec allocator (act (cas l expected v) k) m ≡ exec allocator (k expected) (write m l v)
  unfolding perform
  cas-step l expected v defined holds =
      exec-act allocator (cas l expected v) k m _ expected
        (rw (defined, holds) (rw (==_refl expected)))

module _ {ℓ} (allocator : List ℕ → ℕ) {A : Type ℓ} (p q : Prog A) (m : Mem) where
  pub true-step : (b : Bool) → b ≡ true → exec allocator (if b then p else q) m ≡ exec allocator p m
  true-step b e = rw e

  pub false-step :
      (b : Bool) → b ≡ false → exec allocator (if b then p else q) m ≡ exec allocator q m
  false-step b e = rw e

-- A remainder by a number that is not 0.
pub remainder-step :
    (allocator : List ℕ → ℕ) (a b : ℕ) (m : Mem)
    → b ≢ 0
    → exec allocator (remainder a b) m ≡ ok (a % b) m
unfolding exec remainder
remainder-step allocator a b m some_b = ground arith

module _ {ℓ} (allocator : List ℕ → ℕ) {A : Type ℓ} (a : A) (m : Mem) where
  pub ret-step : exec allocator (ret a) m ≡ ok a m
  unfolding exec
  ret-step = refl
