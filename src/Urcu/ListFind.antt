-- ===== src/Urcu/ListFind.antt =====
-- LinkedListURCU.hpp: `find` with no other thread in between, on a list without marked nodes.
use smr_implementations.Prelude.{
  ==_refl, Bool, Bool-cases, List, [], ap, arith, count, false, has, if◌then◌else◌, inl, inr,
  length, refl, subst, suc, sym, true, zero, ℕ, ◌++◌, ◌<◌, ◌==◌, ◌∙◌, ◌∷◌, ◌≡◌, ◌≢◌,
}
use smr_implementations.Machine.{Loc, Mem, Prog, head, next, read, valid}
use smr_implementations.Machine.Chains.{Linked}
use smr_implementations.Machine.Exec.{exec, ok}
use smr_implementations.Machine.Steps.{load-step, true-step}
use smr_implementations.Urcu.LinkedList.{Found, find, find_from, get_unmarked, walk}
use smr_implementations.Urcu.ListWalk.{IsNode, walk_last, walk_on, walk_stop}

abbrev pub head_or : List ℕ → ℕ → ℕ
head_or [] f = f
head_or (c ∷ cs) f = c

-- The word after the nodes that have been passed.
abbrev pub pred_after : Loc → List ℕ → Loc
pred_after pred [] = pred
pred_after pred (c ∷ cs) = pred_after (next c) cs

-- From `head_or cs f` the links lead through the nodes `cs`, which hold keys, and `f` to the tail.
pub record IsRoute (f : ℕ) (cs : List ℕ) (m : Mem) : Type 0 where
  pub chain : Linked m.next_of (head_or cs f) (cs ++ f ∷ m.tail_word ∷ [])
  pub sound :
      (q : ℕ)
      → 0 < count q (cs ++ f ∷ m.tail_word ∷ [])
      → (get_unmarked q ≡ q) × (has q m.live ≡ true)
  pub some_key : (q : ℕ) → 0 < count q cs → m.item_of q ≢ 0
  pub apart : count m.tail_word (cs ++ f ∷ []) ≡ 0

pub Linked-start :
    (next_of : ℕ → ℕ) (p f t : ℕ) (cs : List ℕ)
    → Linked next_of p (cs ++ f ∷ t ∷ [])
    → (p ≡ head_or cs f) × Linked next_of (head_or cs f) (cs ++ f ∷ t ∷ [])
Linked-start next_of p f t [] (e, ne, links) = (e, (refl, ne, links))
Linked-start next_of p f t (c ∷ cs) (e, ne, links) = (e, (refl, ne, links))

pub count-head_or : (f : ℕ) (cs : List ℕ) → 0 < count (head_or cs f) (cs ++ f ∷ [])
count-head_or f [] = ground arith
count-head_or f (c ∷ cs) = ground arith

IsRoute-tail : (f c : ℕ) (cs : List ℕ) (m : Mem) → IsRoute f (c ∷ cs) m → IsRoute f cs m
IsRoute-tail f c cs m r = record {
  chain = (Linked-start m.next_of (m.next_of c) f m.tail_word cs (r.chain).2).1;
  sound = λ q h. r.sound q (omega (arith, h));
  some_key = λ q h. r.some_key q (omega (arith, h));
  apart = omega (arith, r.apart);
}

IsRoute-IsNode : (f : ℕ) (cs : List ℕ) (m : Mem) → IsRoute f cs m → IsNode m.live (head_or cs f)
IsRoute-IsNode f [] m r = let (even, alive) = r.sound f (ground arith) in ((r.chain).1, even, alive)
IsRoute-IsNode f (c ∷ cs) m r =
    let (even, alive) = r.sound c (ground arith) in ((r.chain).1, even, alive)

module _ (less same : ℕ → ℕ → Bool) (item_of : ℕ → ℕ) (x : ℕ) where
  -- The nodes whose keys are smaller, up to the first other one, and those from there on.
  abbrev pub passed : List ℕ → List ℕ
  passed [] = []
  passed (c ∷ cs) = if less (item_of c) x then c ∷ passed cs else []

  abbrev pub others : List ℕ → List ℕ
  others [] = []
  others (c ∷ cs) = if less (item_of c) x then others cs else c ∷ cs

  pub passed-others : (cs : List ℕ) → passed cs ++ others cs ≡ cs
  passed-others [] = refl
  passed-others (c ∷ cs) = ground (arith, passed-others cs)

  abbrev pub hit : List ℕ → Bool
  hit [] = false
  hit (c ∷ cs) = same (item_of c) x

  -- What `find` returns.
  abbrev pub outcome : (next_of : ℕ → ℕ) (pred : Loc) (f : ℕ) (cs retired : List ℕ) → Found
  outcome next_of pred f cs retired = record {
    found = hit (others cs);
    pred = pred_after pred (passed cs);
    curr = head_or (others cs) f;
    succ = next_of (head_or (others cs) f);
    retired = retired;
  }

module _ (allocator : List ℕ → ℕ) (less same : ℕ → ℕ → Bool) (restart : ℕ → List ℕ → Prog Found)
    (x f : ℕ) (retired : List ℕ) (thread : ℕ) (m : Mem) where
  walk_run :
      (cs : List ℕ) (steps succ : ℕ) (pred : Loc)
      → valid m pred ≡ true
      → read m pred ≡ head_or cs f
      → IsRoute f cs m
      → length cs < steps
      → exec allocator (walk less same steps restart x pred (head_or cs f) succ retired thread) m
        ≡ ok (outcome less same m.item_of x m.next_of pred f cs retired) m
  unfolding valid read
  walk_run cs zero succ pred there points r enough = absurd (omega arith)
  walk_run [] (suc steps) succ pred there points r enough =
      let node : IsNode m.live f = IsRoute-IsNode f [] m r in
      walk_last allocator less same steps restart x pred f succ retired thread m node
        (((r.chain).2).0) ((r.sound m.tail_word (ground arith)).0)
  walk_run (c ∷ cs) (suc steps) succ pred there points r enough =
      let node : IsNode m.live c = IsRoute-IsNode f (c ∷ cs) m r in
      let r' = IsRoute-tail f c cs m r in
      let some_item : m.item_of c ≢ 0 = r.some_key c (ground arith) in
      let link : m.next_of c ≡ head_or cs f =
        (Linked-start m.next_of (m.next_of c) f m.tail_word cs (r.chain).2).0 in
      let next_node : IsNode m.live (head_or cs f) = IsRoute-IsNode f cs m r' in
      let even : get_unmarked (m.next_of c) ≡ m.next_of c = rw link (next_node.1) in
      let inner : m.next_of c ≢ m.tail_word = λ e. omega (
        arith,
        r'.apart,
        subst (λ q. 0 < count q (cs ++ f ∷ [])) (sym link ∙ e) (count-head_or f cs),
      ) in
      elim (Bool-cases (less (m.item_of c) x)) [
        | inl small ↦
            walk_on allocator less same steps restart x pred c succ retired thread m node some_item
              even inner there points small
            ∙ ap
                (λ j.
                  exec allocator
                    (walk less same steps restart x (next c) j (m.next_of c) retired thread) m)
                link
            ∙ rw small (walk_run cs steps (m.next_of c) (next c) (node.2) link r' (omega arith))
        | inr large ↦
            walk_stop allocator less same steps restart x pred c succ retired thread m node
              some_item even inner there points large
            ∙ rw large refl
      ]

module _ (allocator : List ℕ → ℕ) (less same : ℕ → ℕ → Bool) (x f : ℕ) (retired : List ℕ)
    (thread : ℕ) (m : Mem) where
  -- Run alone, with a step for each node and one more, `find` ends and changes nothing.
  pub find_run :
      (cs : List ℕ) (rounds steps unset : ℕ)
      → m.head_word ≡ head_or cs f
      → IsRoute f cs m
      → length cs < steps
      → exec allocator (find less same (suc rounds) steps x unset retired thread) m
        ≡ ok (outcome less same m.item_of x m.next_of head f cs retired) m
  unfolding find find_from valid read
  find_run cs rounds steps unset start r enough =
      let node : IsNode m.live (head_or cs f) = IsRoute-IsNode f cs m r in
      let even : get_unmarked m.head_word ≡ m.head_word = rw start (node.1) in
      let again : ℕ → List ℕ → Prog Found = λ s l. find_from less same rounds steps x s l thread in
      load-step allocator _ m head refl
      ∙ load-step allocator _ m head refl
      ∙ true-step allocator _ _ m (m.head_word == get_unmarked m.head_word)
          (rw even (==_refl m.head_word))
      ∙ ap (λ j. exec allocator (walk less same steps again x head j unset retired thread) m) start
      ∙ walk_run allocator less same again x f retired thread m cs steps unset head refl start r
          enough
