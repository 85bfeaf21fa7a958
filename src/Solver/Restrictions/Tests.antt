-- ===== src/Solver/Restrictions/Tests.antt =====
-- Instances of the properties of start intervals, with times of one digit.
use fl_op.Relations.Windows.{split_interval}
use fl_op.Relations.Windows.{parse_window}
use fl_op.Relations.Windows.{parse_windows}
use fl_op.Solver.Restrictions.Starts.{epoch_intervals}
use fl_op.Solver.Intervals.{subtract_intervals}
use fl_op.Base.{ℕ, ◌-◌, Option, none, some, ◌&&◌, ◌||◌, not, [], ◌∷◌, Text, codes, any, ◌≡◌, refl}
use fl_op.Base.Strip.{is_empty}
use fl_op.Relations.Order.{RawWindows, items}
use fl_op.Relations.Windows.{Parsers, parse_time_windows}
use fl_op.Solver.Intervals.Merge.{covers}
use fl_op.Solver.Restrictions.Starts.{
  allowed_start_intervals, in_windows, restricted_at, allowed_start_intervals-exact,
}

abbrev one_digit : Text → Option ℕ
one_digit (c ∷ []) = some (c - 48)
one_digit s = none

abbrev digits : Parsers
digits = record { from_iso_format = one_digit; literal_list = λ _. none }

abbrev workable : RawWindows
workable = items (codes "2/8" ∷ [])

abbrev closed_at_noon : Option RawWindows
closed_at_noon = some (items (codes "4/5" ∷ []))

allowed_start_intervals_test :
    allowed_start_intervals digits workable closed_at_noon 1 7 ≡ (2, 3) ∷ (6, 7) ∷ []
unfolding allowed_start_intervals subtract_intervals epoch_intervals parse_windows parse_window
    split_interval
allowed_start_intervals_test = refl

allowed_start_intervals-exact_example :
    any (covers 6) (allowed_start_intervals digits workable closed_at_noon 1 7) ≡ (
      (covers 6 (1, 7)
        && (is_empty (parse_time_windows digits workable) || in_windows digits 6 workable))
      && not (restricted_at digits 6 closed_at_noon))
allowed_start_intervals-exact_example =
    allowed_start_intervals-exact digits workable closed_at_noon 1 7 6
