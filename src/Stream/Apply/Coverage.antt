-- ===== src/Stream/Apply/Coverage.antt =====
-- What one pass covered: src/fl_op/stream/coverage.py. Polygons, the path sweep and geodesic areas
-- are the host's.
use fl_op.Base.{Option, none, some, Bool, ◌||◌, List, [], ◌∷◌, codes, if◌then◌else◌, length, ltb}
use fl_op.Base.Strip.{is_empty}
use fl_op.Stream.Apply.Rows.{Host, Value, Row, row_get, truthy, to_float}

abbrev pub Ring : Host → Type 0
Ring h = List (h.Float × h.Float)

module _ (h : Host) where
  unfoldable pub has_coverage_payload : Row h → Bool
  unfolding truthy
  has_coverage_payload payload =
      truthy h (row_get h (codes "covered_polygon") payload)
      || truthy h (row_get h (codes "covered_path") payload)

  -- `ring or None`
  abbrev pub ring_or_none : Ring h → Option (Ring h)
  ring_or_none [] = none
  ring_or_none (p ∷ ring) = some (p ∷ ring)

  abbrev swept : List (h.Float × h.Float) → Option h.Float → Option (Ring h)
  swept latlon none = none
  swept latlon (some width) =
      if is_empty latlon then none else ring_or_none (h.swept_polygon latlon width)

  unfoldable pub pass_ring_from_payload : Row h → Option (Ring h)
  unfolding truthy to_float
  pass_ring_from_payload payload =
      let polygon = row_get h (codes "covered_polygon") payload in
      let path = row_get h (codes "covered_path") payload in
      let width = to_float h (row_get h (codes "swath_width_m") payload) in
      if truthy h polygon
      then ring_or_none (h.parse_polygon polygon)
      else if truthy h path
      then swept (h.path_latlon path) width
      else none

  unfoldable pub work_area_area_ha : Value h.Float → h.Float
  work_area_area_ha geometry =
      let ring = h.parse_polygon geometry in
      if ltb (length ring) 3 then h.zero_f else h.rings_area_ha (ring ∷ [])

  -- `min(1.0, x)` and `max(0.0, x)`
  unfoldable pub at_most_one : h.Float → h.Float
  at_most_one x = if h.lt x h.one_f then x else h.one_f

  unfoldable pub at_least_zero : h.Float → h.Float
  at_least_zero x = if h.lt h.zero_f x then x else h.zero_f

pub record CoverageState (h : Host) : Type 0 where
  pub covered_fraction : h.Float
  pub covered_area_ha : h.Float
  pub remaining_area_ha : h.Float

module _ (h : Host) where
  unfoldable pub coverage_state : List (Ring h) → h.Float → CoverageState h
  unfolding at_most_one at_least_zero
  coverage_state rings original =
      let covered = h.rings_area_ha rings in
      let positive = h.lt h.zero_f original in
      record {
        covered_fraction =
            h.round (if positive then at_most_one h (h.div covered original) else h.zero_f) 6;
        covered_area_ha = h.round covered 4;
        remaining_area_ha =
            h.round (if positive then at_least_zero h (h.sub original covered) else h.zero_f) 4;
      }
