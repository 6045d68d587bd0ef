-- ===== src/Benchmark/Sets.antt =====
-- Calls of a linked list one after the other, against an abstract set.
use smr_implementations.Prelude.{
  Bool, Bool-cases, List, [], ap, ap₂, arith, false, fun_ext, if◌then◌else◌, inl, inr, length, ltb,
  not, refl, subst, sym, true, ℕ, ℕ_discrete, ◌&&◌, ◌+◌, ◌<◌, ◌==◌, ◌||◌, ◌∙◌, ◌∷◌, ◌≡◌, ◌≤◌,
}
use smr_implementations.Machine.{Prog, ret, ◌>>=◌}
use smr_implementations.Benchmark.{SearchList}
use smr_implementations.Benchmark.Calls.{Reply, replies, said}

-- `add`, `remove` and `contains` of an item by a thread.
pub data SetCall : Type 0 where
  adds : (x thread : ℕ) → SetCall
  removes : (x thread : ℕ) → SetCall
  asks : (x thread : ℕ) → SetCall

unfoldable pub set_call : SearchList → SetCall → Prog Reply
set_call l (adds x t) = do done ← l.add x t; ret (said done)
set_call l (removes x t) = do done ← l.remove_item x t; ret (said done)
set_call l (asks x t) = do found ← l.contains x t; ret (said found)

-- The items of a list in order. `less` and `same` are `<` and `==` on what two items point at.
module _ (less same : ℕ → ℕ → Bool) (x : ℕ) where
  abbrev pub member : List ℕ → Bool
  member [] = false
  member (y ∷ ys) = if less y x then member ys else same y x

  abbrev pub with_item : List ℕ → List ℕ
  with_item [] = x ∷ []
  with_item (y ∷ ys) = if less y x then y ∷ with_item ys else x ∷ y ∷ ys

  abbrev pub without_item : List ℕ → List ℕ
  without_item [] = []
  without_item (y ∷ ys) = if less y x then y ∷ without_item ys else ys

  pub length-with_item : (ys : List ℕ) → length (with_item ys) ≡ length ys + 1
  length-with_item [] = omega arith
  length-with_item (y ∷ ys) = ground (arith, length-with_item ys)

  pub length-without_item : (ys : List ℕ) → length (without_item ys) ≤ length ys
  length-without_item [] = omega arith
  length-without_item (y ∷ ys) = ground (arith, length-without_item ys)

-- What a list of items in order answers, and the items after it.
abbrev pub list_step : (less same : ℕ → ℕ → Bool) → List ℕ → SetCall → Reply × List ℕ
list_step less same xs (adds x t) =
    if member less same x xs then (said false, xs) else (said true, with_item less same x xs)
list_step less same xs (removes x t) =
    if member less same x xs then (said true, without_item less same x xs) else (said false, xs)
list_step less same xs (asks x t) = (said (member less same x xs), xs)

-- `rank y` says where the value that `y` points at stands in the order of its type.
module _ (rank : ℕ → ℕ) where
  abbrev pub below : ℕ → ℕ → Bool
  below a b = ltb (rank a) (rank b)

  abbrev pub equal : ℕ → ℕ → Bool
  equal a b = rank a == rank b

  -- A set of values, by their ranks.
  abbrev pub set_step : (ℕ → Bool) → SetCall → Reply × (ℕ → Bool)
  set_step s (adds x t) = (said (not (s (rank x))), λ r. (rank x == r) || s r)
  set_step s (removes x t) = (said (s (rank x)), λ r. not (rank x == r) && s r)
  set_step s (asks x t) = (said (s (rank x)), s)

  -- The items stand in strictly increasing order, all above `low`.
  abbrev pub Ascending : (low : ℕ) → List ℕ → Type 0
  Ascending low [] = Unit {0}
  Ascending low (y ∷ ys) = (low ≤ rank y) × Ascending (rank y + 1) ys

  abbrev pub holds : List ℕ → ℕ → Bool
  holds [] r = false
  holds (y ∷ ys) r = (rank y == r) || holds ys r

  holds-above : (low r : ℕ) (ys : List ℕ) → Ascending low ys → r < low → holds ys r ≡ false
  holds-above low r [] up h = refl
  holds-above low r (y ∷ ys) (above, up) h = ground (arith, holds-above (rank y + 1) r ys up)

  pub member-holds :
      (x low : ℕ) (ys : List ℕ) → Ascending low ys → member below equal x ys ≡ holds ys (rank x)
  member-holds x low [] up = refl
  member-holds x low (y ∷ ys) (above, up) =
      ground (arith, member-holds x (rank y + 1) ys up, holds-above (rank y + 1) (rank x) ys up)

  Ascending-mono : (low low' : ℕ) (ys : List ℕ) → low' ≤ low → Ascending low ys → Ascending low' ys
  Ascending-mono low low' [] h up = tt
  Ascending-mono low low' (y ∷ ys) h (above, up) = (omega arith, up)

  pub with_item-Ascending :
      (x low : ℕ) (ys : List ℕ)
      → Ascending low ys
      → low ≤ rank x
      → member below equal x ys ≡ false
      → Ascending low (with_item below equal x ys)
  with_item-Ascending x low [] up h new = (h, tt)
  with_item-Ascending x low (y ∷ ys) (above, up) h new = elim (Bool-cases (below y x)) [
    | inl small ↦
        rw small (
          above,
          with_item-Ascending x (rank y + 1) ys up (ground (arith, small)) (rw small at new),
        )
    | inr large ↦ rw large (h, (ground (arith, large, new), up))
  ]

  pub with_item-holds :
      (x r : ℕ) (ys : List ℕ) → holds (with_item below equal x ys) r ≡ ((rank x == r) || holds ys r)
  with_item-holds x r [] = refl
  with_item-holds x r (y ∷ ys) = ground (arith, with_item-holds x r ys)

  pub without_item-Ascending :
      (x low : ℕ) (ys : List ℕ) → Ascending low ys → Ascending low (without_item below equal x ys)
  without_item-Ascending x low [] up = tt
  without_item-Ascending x low (y ∷ ys) (above, up) = elim (Bool-cases (below y x)) [
    | inl small ↦ rw small (above, without_item-Ascending x (rank y + 1) ys up)
    | inr large ↦ rw large (Ascending-mono (rank y + 1) low ys (omega arith) up)
  ]

  pub without_item-holds :
      (x r low : ℕ) (ys : List ℕ)
      → Ascending low ys
      → member below equal x ys ≡ true
      → holds (without_item below equal x ys) r ≡ (not (rank x == r) && holds ys r)
  without_item-holds x r low [] up old = cc
  without_item-holds x r low (y ∷ ys) (above, up) old = elim (Bool-cases (below y x)) [
    | inl small ↦
        rw small
          (ground (arith, small, without_item-holds x r (rank y + 1) ys up (rw small at old)))
    | inr large ↦
        let same_rank : equal y x ≡ true = rw large at old in
        rw large (ground (arith, same_rank, holds-above (rank y + 1) r ys up))
  ]

  absorbed : (a r : ℕ) (ys : List ℕ) → holds ys a ≡ true → holds ys r ≡ ((a == r) || holds ys r)
  absorbed a r ys e = elim (ℕ_discrete a r) [
    | yes same ↦ let at_r = subst (λ q. holds ys q ≡ true) same e in ground (arith, at_r)
    | no other ↦ ground (arith, other)
  ]

  missing : (a r : ℕ) (ys : List ℕ) → holds ys a ≡ false → holds ys r ≡ (not (a == r) && holds ys r)
  missing a r ys e = elim (ℕ_discrete a r) [
    | yes same ↦ let at_r = subst (λ q. holds ys q ≡ false) same e in ground (arith, at_r)
    | no other ↦ ground (arith, other)
  ]

  -- The list of items in order answers as the set of their values does.
  abbrev Agrees : List ℕ → SetCall → Type 0
  Agrees xs k =
      let next_list = list_step below equal xs k in
      let next_set = set_step (holds xs) k in
      (next_list.0 ≡ next_set.0)
      × ((r : ℕ) → holds next_list.1 r ≡ next_set.1 r)
      × Ascending 0 next_list.1

  list_step-Agrees : (xs : List ℕ) (k : SetCall) → Ascending 0 xs → Agrees xs k
  list_step-Agrees xs (adds x t) up = elim (Bool-cases (member below equal x xs)) [
    | inl old ↦
        let inside : holds xs (rank x) ≡ true = sym (member-holds x 0 xs up) ∙ old in
        rw old (rw inside refl, (λ r. absorbed (rank x) r xs inside), up)
    | inr new ↦
        let outside : holds xs (rank x) ≡ false = sym (member-holds x 0 xs up) ∙ new in
        rw new (
          rw outside refl,
          (λ r. with_item-holds x r xs),
          with_item-Ascending x 0 xs up (omega arith) new,
        )
  ]
  list_step-Agrees xs (removes x t) up = elim (Bool-cases (member below equal x xs)) [
    | inl old ↦
        let inside : holds xs (rank x) ≡ true = sym (member-holds x 0 xs up) ∙ old in
        rw old (
          rw inside refl,
          (λ r. without_item-holds x r 0 xs up old),
          without_item-Ascending x 0 xs up,
        )
    | inr new ↦
        let outside : holds xs (rank x) ≡ false = sym (member-holds x 0 xs up) ∙ new in
        rw new (rw outside refl, (λ r. missing (rank x) r xs outside), up)
  ]
  list_step-Agrees xs (asks x t) up = (ap said (member-holds x 0 xs up), (λ r. refl), up)

  -- So do sequences of calls.
  pub list-set :
      (xs : List ℕ) (set : ℕ → Bool) (ks : List SetCall)
      → Ascending 0 xs
      → ((r : ℕ) → holds xs r ≡ set r)
      → replies (list_step below equal) xs ks ≡ replies set_step set ks
  list-set xs set [] up same = refl
  list-set xs set (k ∷ ks) up same =
      let (reply, inside, up') = list_step-Agrees xs k up in
      let same_set : holds xs ≡ set = fun_ext same in
      ap₂ (λ r rs. r ∷ rs) (reply ∙ ap (λ s. (set_step s k).0) same_set)
        (list-set (list_step below equal xs k).1 (set_step set k).1 ks up'
          λ r. inside r ∙ ap (λ s. (set_step s k).1 r) same_set)
