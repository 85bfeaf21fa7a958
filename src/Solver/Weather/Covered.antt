-- ===== src/Solver/Weather/Covered.antt =====
-- What the conservative weather filter blocks: `_filter_conservative` of
-- src/fl_op/solver/enforcement.py.
use fl_op.Base.{
  ℕ, max, min, ◌≡◌, refl, ap, ◌∙◌, sym, Option, none, some, or_else, Bool, true, false, ◌&&◌, ◌||◌,
  not, List, [], ◌∷◌, ◌++◌, Text, text_eq, arith, if◌then◌else◌, any, leb, Bool-cases, inl, inr,
  any-append, All, All-append,
}
use fl_op.Base.Dict.{Dict, get, get-put}
use fl_op.Base.Strip.{is_empty}
use fl_op.Solver.Intervals.{Interval, merge_intervals, merge_sorted, subtract_intervals}
use fl_op.Solver.Allocation.Model.{sorted_by}
use fl_op.Solver.Intervals.Merge.{covers, any-merge_intervals}
use fl_op.Solver.Intervals.Subtract.{any-subtract_intervals}
use fl_op.Solver.Weather.{
  Sky, Forecast, WeatherPolicy, FieldTask, Weathered, window_ok, forecast_epoch_interval,
  coverage_horizon, compliant_intervals, filter_conservative, clip, block,
}

module _ (s : Sky) (weather : WeatherPolicy s) (dims : List Text) where
  abbrev within : ℕ → Option Interval → Bool
  within x none = false
  within x (some i) = covers x i

  abbrev meets : Interval → Option Interval → Bool
  meets horizon none = false
  meets horizon (some i) = leb (max i.0 horizon.0) (min i.1 horizon.1)

  -- A forecast that proves an instant safe: it complies, and its window holds the instant.
  abbrev pub safe_at : ℕ → Forecast s → Bool
  safe_at x w = window_ok s weather dims w && within x (forecast_epoch_interval s w)

  -- A forecast that complies and whose window meets the horizon.
  abbrev pub safe_in : Interval → Forecast s → Bool
  safe_in horizon w = window_ok s weather dims w && meets horizon (forecast_epoch_interval s w)

  any-clip :
      (x : ℕ) (horizon : Interval) (i : Option Interval)
      → any (covers x) (clip s horizon i) ≡ (covers x horizon && within x i)
  any-clip x (lo, hi) none = ground arith
  any-clip x (lo, hi) (some (a, b)) = ground arith

  any-compliant_intervals :
      (x : ℕ) (horizon : Interval) (windows : List (Forecast s))
      → any (covers x) (compliant_intervals s weather dims horizon windows)
        ≡ (covers x horizon && any (safe_at x) windows)
  unfolding compliant_intervals
  any-compliant_intervals x horizon [] = ground arith
  any-compliant_intervals x horizon (w ∷ windows) =
      let rest = compliant_intervals s weather dims horizon windows in
      let i = forecast_epoch_interval s w in
      elim (Bool-cases (window_ok s weather dims w)) [
        | inl ok ↦ rw ok (
            any-append (covers x) (clip s horizon i) rest
            ∙ both _ _ (covers x horizon) (within x i) (any (safe_at x) windows)
                (any-clip x horizon i) (any-compliant_intervals x horizon windows))
        | inr bad ↦ rw bad (any-compliant_intervals x horizon windows)
      ]
    where
      both : (a b h c d : Bool) → a ≡ (h && c) → b ≡ (h && d) → (a || b) ≡ (h && (c || d))
      both a b h c d e f = ground (arith, e, f)

  is_empty-clip :
      (horizon : Interval) (i : Option Interval) (rest : List Interval)
      → is_empty (clip s horizon i ++ rest) ≡ (not (meets horizon i) && is_empty rest)
  is_empty-clip horizon none rest = ground arith
  is_empty-clip horizon (some i) rest =
      elim (Bool-cases (leb (max i.0 horizon.0) (min i.1 horizon.1))) [
        | inl met ↦ rw met refl
        | inr apart ↦ rw apart refl
      ]

  is_empty-compliant_intervals :
      (horizon : Interval) (windows : List (Forecast s))
      → is_empty (compliant_intervals s weather dims horizon windows)
        ≡ not (any (safe_in horizon) windows)
  unfolding compliant_intervals
  is_empty-compliant_intervals horizon [] = refl
  is_empty-compliant_intervals horizon (w ∷ windows) =
      let rest = compliant_intervals s weather dims horizon windows in
      let i = forecast_epoch_interval s w in
      elim (Bool-cases (window_ok s weather dims w)) [
        | inl ok ↦ rw ok (
            is_empty-clip horizon i rest
            ∙ ap (λ b. not (meets horizon i) && b) (is_empty-compliant_intervals horizon windows)
            ∙ (ground arith))
        | inr bad ↦ rw bad (is_empty-compliant_intervals horizon windows)
      ]

  abbrev IsProper : Interval → Type 0
  IsProper i = leb i.0 i.1 ≡ true

  clip-IsProper : (horizon : Interval) (i : Option Interval) → All IsProper (clip s horizon i)
  clip-IsProper horizon none = tt
  clip-IsProper horizon (some i) = elim (Bool-cases (leb (max i.0 horizon.0) (min i.1 horizon.1))) [
    | inl met ↦ rw met (met, tt)
    | inr apart ↦ rw apart tt
  ]

  compliant_intervals-IsProper :
      (horizon : Interval) (windows : List (Forecast s))
      → All IsProper (compliant_intervals s weather dims horizon windows)
  unfolding compliant_intervals
  compliant_intervals-IsProper horizon [] = tt
  compliant_intervals-IsProper horizon (w ∷ windows) =
      let rest = compliant_intervals-IsProper horizon windows in
      let i = forecast_epoch_interval s w in
      elim (Bool-cases (window_ok s weather dims w)) [
        | inl ok ↦ rw ok (All-append IsProper (clip s horizon i) _ (clip-IsProper horizon i) rest)
        | inr bad ↦ rw bad rest
      ]

  -- Merging proper intervals leaves nothing only of nothing: the first start is held.
  is_empty-merge_intervals :
      (l : List Interval) → All IsProper l → is_empty (merge_intervals l) ≡ is_empty l
  unfolding merge_intervals merge_sorted sorted_by
  is_empty-merge_intervals [] proper = refl
  is_empty-merge_intervals (i ∷ l) (proper, rest) =
      held _ i.0 (any-merge_intervals i.0 (i ∷ l) ∙ starts i l proper)
    where
      starts : (i : Interval) (l : List Interval) → IsProper i → any (covers i.0) (i ∷ l) ≡ true
      starts (a, b) l proper = ground arith

      held : (m : List Interval) (x : ℕ) → any (covers x) m ≡ true → is_empty m ≡ false
      held [] x e = sym e
      held (i ∷ m) x e = refl

  -- The instants that an outcome blocks for a task.
  abbrev pub blocked_at : ℕ → Text → Dict Text (List Interval) → Bool
  blocked_at x task_id blocked = any (covers x) (or_else (get task_id blocked) [])

  blocked_at-block :
      (x : ℕ) (task_id : Text) (intervals : List Interval) (blocked : Dict Text (List Interval))
      → get task_id blocked ≡ none
      → blocked_at x task_id (block s task_id intervals blocked) ≡ any (covers x) intervals
  blocked_at-block x task_id [] blocked fresh = rw fresh refl
  blocked_at-block x task_id (i ∷ intervals) blocked fresh =
      let found = get-put task_id task_id (i ∷ intervals) blocked in
      rw (found, (text_eq.agrees_iff task_id task_id).1 refl) refl

  -- The conservative filter keeps a task exactly if some forecast that complies meets its horizon,
  -- from now to its deadline, and reports it otherwise; of a kept task that had nothing blocked it
  -- blocks exactly the instants of the horizon that no such forecast holds.
  pub filter_conservative-exact :
      (windows : List (Forecast s)) (now x : ℕ) (order : FieldTask s) (a : Weathered s)
      → get order.task_id a.blocked ≡ none
      → let horizon = coverage_horizon s order now in
        let safe = any (safe_in horizon) windows in
        let after = filter_conservative s weather dims windows now order a in
        (after.kept ≡ (if safe then a.kept ++ order ∷ [] else a.kept))
        × (after.infeasible ≡ (
            if safe
            then a.infeasible
            else a.infeasible ++ (order.task_id, order.operation_type) ∷ []))
        × (blocked_at x order.task_id after.blocked
            ≡ (safe && (covers x horizon && not (any (safe_at x) windows))))
  unfolding filter_conservative
  filter_conservative-exact windows now x order a fresh =
      let horizon = coverage_horizon s order now in
      let intervals = compliant_intervals s weather dims horizon windows in
      let nothing : is_empty (merge_intervals intervals) ≡ not (any (safe_in horizon) windows) =
        is_empty-merge_intervals intervals (compliant_intervals-IsProper horizon windows)
        ∙ is_empty-compliant_intervals horizon windows in
      elim (Bool-cases (any (safe_in horizon) windows)) [
        | inl safe ↦
            rw (nothing, safe)
              (
                refl,
                refl,
                blocked_at-block x order.task_id
                      (subtract_intervals (horizon ∷ []) (merge_intervals intervals)) a.blocked
                      fresh
                    ∙ any-subtract_intervals x (horizon ∷ []) (merge_intervals intervals)
                    ∙ rw
                        (any-merge_intervals x intervals, any-compliant_intervals x horizon windows)
                        (outside (covers x horizon) (any (safe_at x) windows)),
              )
        | inr none_safe ↦ rw (nothing, none_safe) (refl, refl, rw fresh refl)
      ]
    where
      outside : (h w : Bool) → ((h || false) && not (h && w)) ≡ (h && not w)
      outside h w = ground arith
