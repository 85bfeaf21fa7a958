-- ===== src/Solver/Intervals.antt =====
-- Sets of instants as lists of intervals: `merge_intervals` and `subtract_intervals` of
-- src/fl_op/solver/restrictions.py, and `_merge_busy` and `_intervals_overlap` of
-- src/fl_op/solver/enforcement.py. Epoch seconds are natural numbers.
pub mod Merge
pub mod Subtract
use fl_op.Base.{
  ℕ, ◌+◌, ◌-◌, max, Bool, true, false, ◌&&◌, ◌||◌, List, [], ◌∷◌, ◌++◌, if◌then◌else◌, keep, any,
  ltb, leb, eqb,
}
use fl_op.Solver.Allocation.Model.{sorted_by}

abbrev pub Interval : Type 0
Interval = ℕ × ℕ

-- Python's order of pairs.
abbrev pub interval_lt : Interval → Interval → Bool
interval_lt (s, e) (s', e') = ltb s s' || (eqb s s' && ltb e e')

-- The loop of both merges over sorted intervals, where `(start, end)` is `merged[-1]`; an interval
-- joins it if it starts at most `gap` behind its end.
unfoldable pub merge_from : ℕ → Interval → List Interval → List Interval
merge_from gap current [] = current ∷ []
merge_from gap (start, end) ((start', end') ∷ rest) =
    let joined = merge_from gap (start, max end end') rest in
    let closed = (start, end) ∷ merge_from gap (start', end') rest in
    if leb start' (end + gap) then joined else closed

unfoldable pub merge_sorted : ℕ → List Interval → List Interval
unfolding merge_from
merge_sorted gap [] = []
merge_sorted gap (i ∷ intervals) = merge_from gap i intervals

-- `merge_intervals`: closed intervals, which may be adjacent
unfoldable pub merge_intervals : List Interval → List Interval
unfolding merge_sorted sorted_by
merge_intervals intervals =
    merge_sorted 1 (sorted_by interval_lt (keep (λ (i : Interval). leb i.0 i.1) intervals))

-- `_merge_busy`: half-open intervals
unfoldable pub merge_busy : List Interval → List Interval
unfolding merge_sorted sorted_by
merge_busy intervals = merge_sorted 0 (sorted_by interval_lt intervals)

-- One blocked interval taken out of the result.
unfoldable pub cut : Interval → List Interval → List Interval
cut blocked [] = []
cut (b_start, b_end) ((a_start, a_end) ∷ allowed) =
    let rest = cut (b_start, b_end) allowed in
    let left = if ltb a_start b_start then (a_start, b_start - 1) ∷ [] else [] in
    let right = if ltb b_end a_end then (b_end + 1, a_end) ∷ [] else [] in
    if ltb b_end a_start || ltb a_end b_start
    then (a_start, a_end) ∷ rest
    else left ++ right ++ rest

unfoldable pub cut_all : List Interval → List Interval → List Interval
unfolding cut
cut_all [] result = result
cut_all (b ∷ blocked) result = cut_all blocked (cut b result)

-- `subtract_intervals`
unfoldable pub subtract_intervals : List Interval → List Interval → List Interval
unfolding cut_all merge_intervals
subtract_intervals allowed blocked = cut_all (merge_intervals blocked) (merge_intervals allowed)

-- `_intervals_overlap`
unfoldable pub intervals_overlap : List Interval → List Interval → Bool
intervals_overlap left right =
    any (λ (l : Interval). any (λ (r : Interval). ltb l.0 r.1 && ltb r.0 l.1) right) left
