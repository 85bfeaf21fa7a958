-- ===== src/Relations/Windows.antt =====
-- Tasks that no window allows any more: src/fl_op/solver/task_relations.py.
-- Instants are numbers. `datetime.fromisoformat` and `ast.literal_eval` are parameters.
pub mod Laws
use fl_op.Base.{
  ℕ, ◌<◌, ◌≤◌, ◌≡◌, Option, none, some, Bool, true, false, ◌&&◌, not, List, [], ◌∷◌, Text, eqb, ltb,
  leb, any, if◌then◌else◌, arith,
}
use fl_op.Base.Strip.{strip, is_empty}
use fl_op.Relations.Order.{Order, RawWindows, absent, text, items, Infeasible, window_infeasible}

pub record Parsers : Type 0 where
  -- none is a ValueError
  pub from_iso_format : Text → Option ℕ
  -- the items of a text that reads as a list or tuple; none for any other text
  pub literal_list : Text → Option (List Text)

-- `(start, end)`; no end is open-ended
abbrev pub TimeWindow : Type 0
TimeWindow = ℕ × Option ℕ

-- `s.split("/", 1)` with two parts
unfoldable pub split_interval : Text → Option (Text × Text)
split_interval [] = none
split_interval (c ∷ s) =
    let rest = split_interval s in
    if eqb c 47 then some ([], s) else elim rest [ none ↦ none | some (a, b) ↦ some (c ∷ a, b) ]

abbrev not_elapsed : ℕ → Option ℕ → Bool
not_elapsed now none = true
not_elapsed now (some end) = ltb now end

abbrev opens_in_time : Option ℕ → ℕ → Bool
opens_in_time none start = true
opens_in_time (some deadline) start = leb start deadline

unfoldable pub usable : ℕ → Option ℕ → TimeWindow → Bool
usable now deadline (start, end) = not_elapsed now end && opens_in_time deadline start

module _ (p : Parsers) where
  open p use {from_iso_format, literal_list}

  -- `_as_list`
  unfoldable pub as_list : RawWindows → List Text
  as_list absent = []
  as_list (text s) =
      if is_empty (strip s) then [] else elim (literal_list s) [ none ↦ s ∷ [] | some l ↦ l ]
  as_list (items l) = l

  abbrev with_end : Text → ℕ → Option TimeWindow
  with_end [] start = some (start, none)
  with_end (c ∷ s) start = elim (from_iso_format (c ∷ s)) [
    | none ↦ none
    | some end ↦ some (start, some end)
  ]

  abbrev with_start : Option ℕ → Text → Option TimeWindow
  with_start none end = none
  with_start (some start) end = with_end end start

  -- One item: none where it is malformed and skipped.
  unfoldable pub parse_window : Text → Option TimeWindow
  parse_window item = elim (split_interval item) [
    | none ↦ none
    | some (from, to) ↦ if is_empty from then none else with_start (from_iso_format from) to
  ]

  unfoldable pub parse_windows : List Text → List TimeWindow
  parse_windows [] = []
  parse_windows (i ∷ l) = elim (parse_window i) [
    | none ↦ parse_windows l
    | some w ↦ w ∷ parse_windows l
  ]

  unfoldable pub parse_time_windows : RawWindows → List TimeWindow
  unfolding as_list
  parse_time_windows raw = parse_windows (as_list raw)

  unfoldable pub parse_deadline : Text → Option ℕ
  parse_deadline raw = if is_empty raw then none else from_iso_format raw

  -- Whether the loop keeps the order.
  unfoldable pub passes : ℕ → Order → Bool
  unfolding parse_time_windows
  passes now o =
      let windows = parse_time_windows o.time_windows in
      if is_empty windows then true else any (usable now (parse_deadline o.deadline)) windows

  unfoldable pub apply_time_window_filter : ℕ → List Order → List Order × List Infeasible
  unfolding passes
  apply_time_window_filter now [] = ([], [])
  apply_time_window_filter now (o ∷ orders) =
      let (kept, infeasible) = apply_time_window_filter now orders in
      if passes now o
      then (o ∷ kept, infeasible)
      else (kept, window_infeasible o.task_id ∷ infeasible)
