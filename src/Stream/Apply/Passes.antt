-- ===== src/Stream/Apply/Passes.antt =====
-- Progress of a task: `_apply_coverage_pass`, `_apply_task_progress` and their helpers of
-- src/fl_op/stream/apply.py.
use fl_op.Base.{
  ◌+◌, Option, none, some, or_else, is_some, ◌||◌, List, [], ◌∷◌, ◌++◌, Text, text_eq, codes,
  if◌then◌else◌,
}
use fl_op.Base.Dict.{Dict, get, put, remove}
use fl_op.Stream.Apply.Rows.{
  Host, Value, number, Row, Sources, Tables, contracts_for, key_field, status_field, work_fields,
  area_field, work_area_geometry_field, row_get, get_or_zero, matches, to_float, to_float_or_zero,
  each,
}
use fl_op.Stream.Apply.Coverage.{
  Ring, has_coverage_payload, pass_ring_from_payload, work_area_area_ha, at_least_zero,
  CoverageState, coverage_state,
}
use fl_op.Stream.Apply.Tasks.{
  State, CoverageEntry, CoverageReport, at_matching, mark_started, task_contracts, find_row,
  rows_of, find_by, complete_task, scale_task_work,
}

module _ (h : Host) (t : Tables) where
  -- `_capture_work_state`: the original of each work column that is a number
  unfoldable pub originals_of : List Text → Row h → Dict Text h.Float
  unfolding to_float_or_zero
  originals_of fields row = go fields []
    where
      add : Text → Option h.Float → Dict Text h.Float → Dict Text h.Float
      add field none d = d
      add field (some x) d = put field x d

      go : List Text → Dict Text h.Float → Dict Text h.Float
      go [] d = d
      go (field ∷ fields) d = go fields (add field (to_float_or_zero h (get_or_zero h field row)) d)

  abbrev polygon_area : Option Text → Row h → h.Float
  polygon_area none row = h.zero_f
  polygon_area (some field) row = work_area_area_ha h (row_get h field row)

  abbrev or_area_column : Option Text → Row h → h.Float → h.Float
  or_area_column none row area = area
  or_area_column (some field) row area =
      if h.le area h.zero_f
      then or_else (to_float_or_zero h (get_or_zero h field row)) h.zero_f
      else area

  abbrev or_first_work : List Text → Dict Text h.Float → h.Float → h.Float
  or_first_work [] originals area = area
  or_first_work (field ∷ _) originals area =
      if h.le area h.zero_f then or_else (get field originals) h.zero_f else area

  unfoldable pub area_of : Text → Row h → h.Float
  unfolding originals_of work_area_area_ha to_float_or_zero work_fields area_field
      work_area_geometry_field
  area_of cid row =
      or_first_work (work_fields t cid) (originals_of (work_fields t cid) row)
        (or_area_column (area_field t cid) row (polygon_area (work_area_geometry_field t cid) row))

  unfoldable pub capture_work_state : Text → List Text → Sources h → Dict Text h.Float × h.Float
  unfolding find_row key_field originals_of area_of work_fields
  capture_work_state ref [] sources = ([], h.zero_f)
  capture_work_state ref (cid ∷ cids) sources =
      let later = capture_work_state ref cids sources in
      go later (find_by h t (key_field t cid) ref (rows_of h t cid sources))
    where
      go : Dict Text h.Float × h.Float → Option (Row h) → Dict Text h.Float × h.Float
      go later none = later
      go later (some row) = (originals_of (work_fields t cid) row, area_of cid row)

  -- `_set_remaining_from_originals`
  unfoldable pub set_originals : h.Float → Dict Text h.Float → Row h → Row h
  set_originals uncovered [] row = row
  set_originals uncovered ((field, original) ∷ originals) row = set_originals uncovered originals (
      if is_some (get field row)
      then put field (number (h.round (h.mul original uncovered) 2)) row
      else row)

  abbrev reset_rows :
      Text → h.Float → Dict Text h.Float → Option Text → Option Text → List (Row h) → List (Row h)
  reset_rows ref uncovered originals none status rows = rows
  reset_rows ref uncovered originals (some key) status rows =
      at_matching h t key ref
        (λ row. mark_started h t status (set_originals uncovered originals row)) rows

  unfoldable pub set_remaining_from_originals :
      Text → Dict Text h.Float → h.Float → Sources h → Sources h
  unfolding each contracts_for key_field status_field set_originals at_least_zero matches
  set_remaining_from_originals ref originals fraction sources =
      each h
        (λ cid.
          reset_rows ref (at_least_zero h (h.sub h.one_f fraction)) originals (key_field t cid)
            (status_field t cid))
        (task_contracts h t sources) sources

  -- The task's entry in `_coverage`, or a new one for a task with a positive work area.
  abbrev new_entry : Dict Text h.Float × h.Float → Option (CoverageEntry h)
  new_entry (originals, area) =
      if h.le area h.zero_f
      then none
      else some record { rings = []; originals = originals; original_area_ha = area; n_passes = 0 }

  unfoldable pub entry_for : Text → State h → Option (CoverageEntry h)
  unfolding capture_work_state contracts_for
  entry_for ref st = go (get ref st.coverage)
    where
      go : Option (CoverageEntry h) → Option (CoverageEntry h)
      go (some entry) = some entry
      go none = new_entry (capture_work_state ref (task_contracts h t st.sources) st.sources)

  abbrev with_ring : Ring h → CoverageEntry h → CoverageEntry h
  with_ring ring entry = record entry {
    rings = entry.rings ++ ring ∷ [];
    n_passes = entry.n_passes + 1;
  }

  abbrev report_of : Text → Text → CoverageEntry h → CoverageState h → CoverageReport h
  report_of ref observed_at entry state = record {
    task_id = ref;
    observed_at = observed_at;
    n_passes = entry.n_passes;
    original_area_ha = h.round entry.original_area_ha 4;
    state = state;
  }

  -- What follows `n_passes += 1`: the report, then the task's end or its remaining work.
  unfoldable pub finish_pass : Text → Text → CoverageEntry h → State h → State h
  unfolding coverage_state complete_task set_remaining_from_originals
  finish_pass ref observed_at entry st =
      let state = coverage_state h entry.rings entry.original_area_ha in
      let reported = record st {
        coverage = put ref entry st.coverage;
        coverage_reports = st.coverage_reports ++ report_of ref observed_at entry state ∷ [];
      } in
      let completed = complete_task h t ref observed_at (codes "coverage") reported in
      if h.le h.complete_fraction state.covered_fraction
      then record completed { coverage = remove ref completed.coverage }
      else record reported {
        sources =
            set_remaining_from_originals ref entry.originals state.covered_fraction
              reported.sources;
      }

  -- `_apply_coverage_pass`: none where it returns False, which leaves the state as it was
  unfoldable pub pass_with :
      Text → Text → Option (Ring h) → Option (CoverageEntry h) → State h → Option (State h)
  unfolding finish_pass
  pass_with ref observed_at (some ring) (some entry) st =
      some (finish_pass ref observed_at (with_ring ring entry) st)
  pass_with ref observed_at none entry st = none
  pass_with ref observed_at (some ring) none st = none

  unfoldable pub apply_coverage_pass : Text → Row h → Text → State h → Option (State h)
  unfolding pass_ring_from_payload entry_for pass_with
  apply_coverage_pass ref payload observed_at st =
      pass_with ref observed_at (pass_ring_from_payload h payload) (entry_for ref st) st

  -- The coverage pass of a payload that has one.
  unfoldable pub try_coverage : Text → Row h → Text → State h → Option (State h)
  unfolding has_coverage_payload apply_coverage_pass
  try_coverage ref payload observed_at st =
      if has_coverage_payload h payload
      then apply_coverage_pass ref payload observed_at st
      else none

  -- `_payload_float`
  unfoldable pub payload_float : Row h → Text → Option h.Float
  unfolding to_float
  payload_float payload key = go (get key payload)
    where
      go : Option (Value h.Float) → Option h.Float
      go none = none
      go (some v) = to_float h v

  -- `_apply_task_progress` without usable geometry; an unusable fraction does nothing
  unfoldable pub scalar_progress_with :
      Text → Text → Option h.Float → Option h.Float → State h → State h
  unfolding complete_task scale_task_work
  scalar_progress_with ref observed_at (some remaining) _ st =
      if h.le remaining h.zero_f || h.le h.one_f h.zero_f
      then complete_task h t ref observed_at (codes "progress") st
      else record st { sources = scale_task_work h t ref h.zero_f (some remaining) st.sources }
  scalar_progress_with ref observed_at none none st = st
  scalar_progress_with ref observed_at none (some fraction) st =
      if h.le h.one_f fraction
      then complete_task h t ref observed_at (codes "progress") st
      else record st { sources = scale_task_work h t ref fraction none st.sources }

  unfoldable pub apply_scalar_progress : Text → Row h → Text → State h → State h
  unfolding payload_float to_float scalar_progress_with
  apply_scalar_progress ref payload observed_at st =
      scalar_progress_with ref observed_at (payload_float payload (codes "remaining_quantity"))
        (to_float h (get_or_zero h (codes "completed_fraction") payload)) st

  unfoldable pub apply_task_progress : Text → Row h → Text → State h → State h
  unfolding try_coverage apply_scalar_progress
  apply_task_progress ref payload observed_at st =
      or_else (try_coverage ref payload observed_at st)
        (apply_scalar_progress ref payload observed_at st)
