-- ===== src/Solver/Restrictions/Starts.antt =====
-- When a task may start: `_epoch_intervals` and `allowed_start_intervals` of
-- src/fl_op/solver/restrictions.py.
use fl_op.Base.{
  ℕ, min, max, ◌≡◌, ◌∙◌, Option, none, some, Bool, false, ◌&&◌, ◌||◌, not, List, [], ◌∷◌, arith,
  if◌then◌else◌, any, leb,
}
use fl_op.Base.Strip.{is_empty}
use fl_op.Relations.Order.{RawWindows}
use fl_op.Relations.Windows.{Parsers, TimeWindow, parse_time_windows}
use fl_op.Solver.Intervals.{Interval, subtract_intervals}
use fl_op.Solver.Intervals.Merge.{covers}
use fl_op.Solver.Intervals.Subtract.{any-subtract_intervals}

-- `clamp_end if end is None else min(clamp_end, end)`
abbrev clamped : ℕ → Option ℕ → ℕ
clamped clamp_end none = clamp_end
clamped clamp_end (some end) = min clamp_end end

-- The loop of `_epoch_intervals` over parsed windows.
unfoldable pub clamp_windows : ℕ → ℕ → List TimeWindow → List Interval
clamp_windows clamp_start clamp_end [] = []
clamp_windows clamp_start clamp_end ((start, end) ∷ windows) =
    let intervals = clamp_windows clamp_start clamp_end windows in
    let interval : Interval = (max clamp_start start, clamped clamp_end end) in
    if leb interval.0 interval.1 then interval ∷ intervals else intervals

module _ (p : Parsers) where
  -- `_epoch_intervals`
  unfoldable pub epoch_intervals : RawWindows → ℕ → ℕ → List Interval
  unfolding clamp_windows parse_time_windows
  epoch_intervals raw_windows clamp_start clamp_end =
      clamp_windows clamp_start clamp_end (parse_time_windows p raw_windows)

  abbrev blocked_intervals : Option RawWindows → ℕ → ℕ → List Interval
  blocked_intervals none now deadline = []
  blocked_intervals (some raw) now deadline = epoch_intervals raw now deadline

  -- `allowed_start_intervals`: the order's windows, and the site's where there is a site
  unfoldable pub allowed_start_intervals : RawWindows → Option RawWindows → ℕ → ℕ → List Interval
  allowed_start_intervals time_windows restriction_windows now deadline =
      let workable = epoch_intervals time_windows now deadline in
      let base =
        if is_empty (parse_time_windows p time_windows) then (now, deadline) ∷ [] else workable in
      subtract_intervals base (blocked_intervals restriction_windows now deadline)

-- Whether an instant lies in a window, which may have no end.
abbrev pub in_window : ℕ → TimeWindow → Bool
in_window x (start, none) = leb start x
in_window x (start, some end) = leb start x && leb x end

any-clamp_windows :
    (x lo hi : ℕ) (windows : List TimeWindow)
    → any (covers x) (clamp_windows lo hi windows)
      ≡ (covers x (lo, hi) && any (in_window x) windows)
unfolding clamp_windows
any-clamp_windows x lo hi [] = ground arith
any-clamp_windows x lo hi ((start, none) ∷ windows) =
    ground (arith, any-clamp_windows x lo hi windows)
any-clamp_windows x lo hi ((start, some end) ∷ windows) =
    ground (arith, any-clamp_windows x lo hi windows)

module _ (p : Parsers) where
  abbrev pub in_windows : ℕ → RawWindows → Bool
  in_windows x raw = any (in_window x) (parse_time_windows p raw)

  abbrev pub restricted_at : ℕ → Option RawWindows → Bool
  restricted_at x none = false
  restricted_at x (some raw) = in_windows x raw

  base_lem :
      (x now deadline : ℕ) (windows : List TimeWindow)
      → any
          (covers x)
          (if is_empty windows then (now, deadline) ∷ [] else clamp_windows now deadline windows)
        ≡ (covers x (now, deadline) && (is_empty windows || any (in_window x) windows))
  base_lem x now deadline [] = ground arith
  base_lem x now deadline (w ∷ windows) = any-clamp_windows x now deadline (w ∷ windows)

  blocked_lem :
      (x now deadline : ℕ) (raw : Option RawWindows)
      → any (covers x) (blocked_intervals p raw now deadline)
        ≡ (covers x (now, deadline) && restricted_at x raw)
  unfolding epoch_intervals
  blocked_lem x now deadline none = ground arith
  blocked_lem x now deadline (some raw) =
      any-clamp_windows x now deadline (parse_time_windows p raw)

  -- A task may start exactly at the instants between now and the deadline that lie in one of its
  -- workable windows, if it has any that can be read, and in no restriction window of its site.
  pub allowed_start_intervals-exact :
      (time_windows : RawWindows) (restriction_windows : Option RawWindows) (now deadline x : ℕ)
      → any (covers x) (allowed_start_intervals p time_windows restriction_windows now deadline) ≡ (
          (covers x (now, deadline)
            && (is_empty (parse_time_windows p time_windows) || in_windows x time_windows))
          && not (restricted_at x restriction_windows))
  unfolding allowed_start_intervals epoch_intervals
  allowed_start_intervals-exact time_windows restriction_windows now deadline x =
      let windows = parse_time_windows p time_windows in
      any-subtract_intervals x _ (blocked_intervals p restriction_windows now deadline)
      ∙ rw (base_lem x now deadline windows, blocked_lem x now deadline restriction_windows)
          (inside (covers x (now, deadline)) (is_empty windows || in_windows x time_windows)
            (restricted_at x restriction_windows))
    where
      inside : (c w r : Bool) → ((c && w) && not (c && r)) ≡ ((c && w) && not r)
      inside c w r = ground arith
