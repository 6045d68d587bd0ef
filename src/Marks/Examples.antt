-- ===== src/Marks/Examples.antt =====
-- Pointers of the four linked lists, marked and unmarked: the theorem at one pointer.
use smr_implementations.Marks.{Agree, marks-Agree}
use smr_implementations.HazardPointer.LinkedList
use smr_implementations.HazardEras.LinkedList as EraList
use smr_implementations.IntervalBased.LinkedList as IntervalList
use smr_implementations.Urcu.LinkedList as RcuList

marks-Agree_example :
    Agree LinkedList.is_marked LinkedList.get_marked LinkedList.get_unmarked 13
    × Agree EraList.is_marked EraList.get_marked EraList.get_unmarked 13
    × Agree IntervalList.is_marked IntervalList.get_marked IntervalList.get_unmarked 13
    × Agree RcuList.is_marked RcuList.get_marked RcuList.get_unmarked 13
marks-Agree_example = marks-Agree 13
