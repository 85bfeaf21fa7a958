-- ===== src/Stream/Apply/Telemetry.antt =====
-- Observations and the progress that telemetry reports: `_append_observation` and its helpers of
-- src/fl_op/stream/apply.py.
use fl_op.Base.{
  Option, none, some, or_else, not, List, [], ◌∷◌, Text, text_eq, codes, if◌then◌else◌, ◌==◌,
}
use fl_op.Base.Dict.{get}
use fl_op.Base.Strip.{is_empty}
use fl_op.Stream.Apply.Rows.{
  Host, Value, Row, Sources, Tables, Table, contracts_for, column, row_get, to_float, str_value,
}
use fl_op.Stream.Apply.Coverage.{at_least_zero}
use fl_op.Stream.Apply.Tasks.{State, complete_task, scale_task_work}
use fl_op.Stream.Apply.Passes.{try_coverage}
use fl_op.Stream.Apply.Upserts.{ExecutionEvent, append_payload}

module _ (h : Host) (t : Tables) where
  -- `_observation_ingested_extra`
  abbrev ingested_at_column : List Text → Option Text
  ingested_at_column [] = none
  ingested_at_column (cid ∷ _) = column t (codes "observation.ingestedAt") cid

  unfoldable pub observation_ingested_extra : ExecutionEvent h → Sources h → Option (Text × Text)
  unfolding contracts_for
  observation_ingested_extra event sources =
      go (if is_empty event.ingested_at then event.observed_at else event.ingested_at)
        (ingested_at_column (contracts_for t (codes "observation") sources))
    where
      go : Text → Option Text → Option (Text × Text)
      go [] _ = none
      go (c ∷ s) none = none
      go (c ∷ s) (some field) = some (field, c ∷ s)

  -- `str(event.payload.get(field, ""))`
  abbrev pub payload_text : Text → Row h → Text
  payload_text field payload = go (get field payload)
    where
      go : Option (Value h.Float) → Text
      go none = []
      go (some v) = str_value h v

  -- `_derive_progress_from_telemetry`: the reading's share of the task's work
  unfoldable pub apply_reading : ExecutionEvent h → Text → Option h.Float → State h → State h
  unfolding complete_task scale_task_work at_least_zero
  apply_reading event ref none st = st
  apply_reading event ref (some pct) st =
      if h.le h.complete_pct pct
      then complete_task h t ref event.observed_at (codes "telemetry") st
      else record st {
        sources =
            scale_task_work h t ref (h.div (at_least_zero h pct) h.complete_pct) none st.sources;
      }

  unfoldable pub reading_progress : ExecutionEvent h → Text → Text → State h → State h
  unfolding try_coverage apply_reading to_float
  reading_progress event ref value_field st =
      or_else (try_coverage h t ref event.payload event.observed_at st)
        (apply_reading event ref (to_float h (row_get h value_field event.payload)) st)

  abbrev canonical_metric : Text → Text → Text
  canonical_metric cid raw = go (get cid t.tables)
    where
      go : Option Table → Text
      go none = raw
      go (some table) = or_else (get raw table.metric_codes) raw

  unfoldable pub telemetry_with :
      ExecutionEvent h
      → Text
      → Option Text
      → Option Text
      → Option Text
      → State h
      → State h
      → State h
  unfolding reading_progress str_value
  telemetry_with event cid (some metric) (some value) (some ref) later st =
      if not (canonical_metric cid (payload_text metric event.payload) == codes "work-progress")
      then later
      else if is_empty (payload_text ref event.payload)
      then later
      else reading_progress event (payload_text ref event.payload) value st
  telemetry_with event cid _ _ _ later st = later

  unfoldable pub derive_progress : ExecutionEvent h → List Text → State h → State h
  unfolding telemetry_with
  derive_progress event [] st = st
  derive_progress event (cid ∷ cids) st =
      let later = derive_progress event cids st in
      telemetry_with event cid (column t (codes "observation.metric") cid)
        (column t (codes "observation.value") cid) (column t (codes "observation.entityRef") cid)
        later st

  -- `_append_observation`
  unfoldable pub append_observation : ExecutionEvent h → State h → State h
  unfolding append_payload observation_ingested_extra derive_progress contracts_for
  append_observation event st =
      let sources =
        append_payload h t (codes "observation") event.payload
          (observation_ingested_extra event st.sources) st.sources in
      derive_progress event (contracts_for t (codes "observation") sources)
        (record st { sources = sources })
