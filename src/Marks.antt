-- ===== src/Marks.antt =====
-- The mark in the lowest bit of a pointer, in the linked lists of the four folders.
mod Examples
use smr_implementations.Prelude.{
  Bool, arith, false, if◌then◌else◌, not, true, ℕ, ◌%◌, ◌+◌, ◌-◌, ◌==◌, ◌≡◌,
}
use smr_implementations.HazardPointer.LinkedList
use smr_implementations.HazardEras.LinkedList as EraList
use smr_implementations.IntervalBased.LinkedList as IntervalList
use smr_implementations.Urcu.LinkedList as RcuList

-- Marking and unmarking, the test, and the test that `find` makes in its place.
abbrev pub Agree : (is_marked : ℕ → Bool) (get_marked get_unmarked : ℕ → ℕ) (p : ℕ) → Type 0
Agree is_marked get_marked get_unmarked p =
    (is_marked (get_marked p) ≡ true)
    × (is_marked (get_unmarked p) ≡ false)
    × ((if is_marked p then get_marked (get_unmarked p) else get_unmarked (get_marked p)) ≡ p)
    × ((get_unmarked p == p) ≡ not (is_marked p))

agree : (p : ℕ) → Agree (λ q. q % 2 == 1) (λ q. q - q % 2 + 1) (λ q. q - q % 2) p
agree p = (ground arith, ground arith, ground arith, ground arith)

-- In all four lists, for every pointer, a marked one tests as marked and an unmarked one does not;
-- unmarking a marked pointer and marking it again gives it back, and so does marking an unmarked one
-- and unmarking it again; and the comparison of `find` with the unmarked pointer is the test negated.
pub marks-Agree :
    (p : ℕ)
    → Agree LinkedList.is_marked LinkedList.get_marked LinkedList.get_unmarked p
      × Agree EraList.is_marked EraList.get_marked EraList.get_unmarked p
      × Agree IntervalList.is_marked IntervalList.get_marked IntervalList.get_unmarked p
      × Agree RcuList.is_marked RcuList.get_marked RcuList.get_unmarked p
unfolding LinkedList.is_marked LinkedList.get_marked LinkedList.get_unmarked EraList.is_marked
    EraList.get_marked EraList.get_unmarked IntervalList.is_marked IntervalList.get_marked
    IntervalList.get_unmarked RcuList.is_marked RcuList.get_marked RcuList.get_unmarked
marks-Agree p = (agree p, agree p, agree p, agree p)
