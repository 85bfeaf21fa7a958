-- ===== src/Stream/Apply/Replay.antt =====
-- Replayed events of src/fl_op/stream/apply.py: an id that was applied is not applied again.
use fl_op.Base.{
  ◌≡◌, refl, ◌∙◌, Option, none, some, true, false, List, [], ◌∷◌, Text, text_eq, contains, arith, ℕ,
  Bool-cases, inl, inr, contains_head, or_else,
}
use fl_op.Base.Strip.{is_empty}
use fl_op.Stream.Dedup.{EventDedupStore}
use fl_op.Stream.Apply.Rows.{Host, Row, Tables}
use fl_op.Stream.Apply.Tasks.{CoverageEntry, State, complete_task}
use fl_op.Stream.Apply.Coverage.{Ring, has_coverage_payload}
use fl_op.Stream.Apply.Passes.{
  scalar_progress_with, pass_with, try_coverage, apply_coverage_pass, finish_pass,
  apply_scalar_progress, apply_task_progress,
}
use fl_op.Stream.Apply.Upserts.{parse_observed, correct, ExecutionEvent, upsert_entity}
use fl_op.Stream.Apply.Telemetry.{
  payload_text, telemetry_with, append_observation, derive_progress, reading_progress,
  apply_reading,
}
use fl_op.Stream.Apply.Dispatch.{
  event_entity, event_type_of, bump_entity, run_handler, EventType, task_started, task_progress,
  task_completed, order_created, order_cancelled, asset_unavailable, forecast_updated,
  observation_recorded, entity_corrected, inventory_adjusted, handle, advance_watermarks,
  note_event, is_replay, apply, apply_all,
}

module _ (h : Host) (t : Tables) where
  -- What an optional next state keeps of a state.
  abbrev pub KeepsSeen : State h → State h → Type 0
  KeepsSeen st after =
      (after.seen_event_ids ≡ st.seen_event_ids) × (after.watermarks ≡ st.watermarks)

  finish_pass-KeepsSeen :
      (ref observed_at : Text) (entry : _) (st : State h)
      → KeepsSeen st (finish_pass h t ref observed_at entry st)
  unfolding finish_pass complete_task
  finish_pass-KeepsSeen ref observed_at entry st = ground arith

  pass_with-KeepsSeen :
      (ref observed_at : Text) (ring : Option (Ring h)) (entry : Option (CoverageEntry h))
      (st after : State h)
      → KeepsSeen st after
      → KeepsSeen st (or_else (pass_with h t ref observed_at ring entry st) after)
  unfolding pass_with
  pass_with-KeepsSeen ref observed_at none entry st after keeps = keeps
  pass_with-KeepsSeen ref observed_at (some ring) none st after keeps = keeps
  pass_with-KeepsSeen ref observed_at (some ring) (some entry) st after keeps =
      finish_pass-KeepsSeen ref observed_at _ st

  pub try_coverage-KeepsSeen :
      (ref : Text) (payload : Row h) (observed_at : Text) (st after : State h)
      → KeepsSeen st after
      → KeepsSeen st (or_else (try_coverage h t ref payload observed_at st) after)
  unfolding try_coverage apply_coverage_pass
  try_coverage-KeepsSeen ref payload observed_at st after keeps =
      elim (Bool-cases (has_coverage_payload h payload)) [
        | inl has ↦ rw has (pass_with-KeepsSeen ref observed_at _ _ st after keeps)
        | inr lacks ↦ rw lacks keeps
      ]

  pub scalar_progress_with-KeepsSeen :
      (ref observed_at : Text) (remaining fraction : Option h.Float) (st : State h)
      → KeepsSeen st (scalar_progress_with h t ref observed_at remaining fraction st)
  unfolding scalar_progress_with complete_task
  scalar_progress_with-KeepsSeen ref observed_at none none st = (refl, refl)
  scalar_progress_with-KeepsSeen ref observed_at none (some f) st = ground arith
  scalar_progress_with-KeepsSeen ref observed_at (some r) f st = ground arith

  apply_reading-KeepsSeen :
      (event : ExecutionEvent h) (ref : Text) (pct : Option h.Float) (st : State h)
      → KeepsSeen st (apply_reading h t event ref pct st)
  unfolding apply_reading complete_task
  apply_reading-KeepsSeen event ref none st = (refl, refl)
  apply_reading-KeepsSeen event ref (some pct) st = ground arith

  reading_progress-KeepsSeen :
      (event : ExecutionEvent h) (ref value_field : Text) (st : State h)
      → KeepsSeen st (reading_progress h t event ref value_field st)
  unfolding reading_progress
  reading_progress-KeepsSeen event ref value_field st =
      try_coverage-KeepsSeen ref event.payload event.observed_at st _
        (apply_reading-KeepsSeen event ref _ st)

  telemetry_with-KeepsSeen :
      (event : ExecutionEvent h) (cid : Text) (metric value ref : Option Text) (later st : State h)
      → KeepsSeen st later
      → KeepsSeen st (telemetry_with h t event cid metric value ref later st)
  unfolding telemetry_with
  telemetry_with-KeepsSeen event cid (some m) (some v) (some r) later st keeps =
      ground (arith, reading_progress-KeepsSeen event (payload_text h t r event.payload) v st)
  telemetry_with-KeepsSeen event cid (some m) (some v) none later st keeps = keeps
  telemetry_with-KeepsSeen event cid (some m) none r later st keeps = keeps
  telemetry_with-KeepsSeen event cid none v r later st keeps = keeps

  pub derive_progress-KeepsSeen :
      (event : ExecutionEvent h) (cids : List Text) (st : State h)
      → KeepsSeen st (derive_progress h t event cids st)
  unfolding derive_progress
  derive_progress-KeepsSeen event [] st = (refl, refl)
  derive_progress-KeepsSeen event (cid ∷ cids) st =
      telemetry_with-KeepsSeen event cid _ _ _ _ st (derive_progress-KeepsSeen event cids st)

  correct-seen :
      (event : ExecutionEvent h) (done : _) (st : State h)
      → (correct h t event done st).seen_event_ids ≡ st.seen_event_ids
  unfolding correct
  correct-seen event none st = refl
  correct-seen event (some d) st = refl

  -- A handler leaves the ids alone, and all but the correction leave the watermarks alone.
  pub handle-seen :
      (type : EventType) (event : ExecutionEvent h) (st : State h)
      → (handle h t type event st).seen_event_ids ≡ st.seen_event_ids
  unfolding handle complete_task apply_task_progress apply_scalar_progress append_observation
      upsert_entity
  handle-seen task_started event st = refl
  handle-seen task_progress event st =
      (try_coverage-KeepsSeen event.entity_ref event.payload event.observed_at st _
        (scalar_progress_with-KeepsSeen event.entity_ref event.observed_at _ _ st)).0
  handle-seen task_completed event st = refl
  handle-seen order_created event st = refl
  handle-seen order_cancelled event st = refl
  handle-seen asset_unavailable event st = refl
  handle-seen forecast_updated event st = refl
  handle-seen observation_recorded event st = (derive_progress-KeepsSeen event _ _).0
  handle-seen entity_corrected event st = correct-seen event _ st
  handle-seen inventory_adjusted event st = refl

  bump_entity-seen :
      (entity : Option Text) (observed : Option ℕ) (st : State h)
      → (bump_entity h t entity observed st).seen_event_ids ≡ st.seen_event_ids
  unfolding bump_entity
  bump_entity-seen none observed st = refl
  bump_entity-seen (some e) observed st = refl

  pub run_handler-seen :
      (type : Option EventType) (event : ExecutionEvent h) (st : State h)
      → (run_handler h t type event st).seen_event_ids ≡ st.seen_event_ids
  unfolding run_handler advance_watermarks
  run_handler-seen none event st = refl
  run_handler-seen (some type) event st =
      bump_entity-seen (event_entity type) (parse_observed h t event) (handle h t type event st)
      ∙ handle-seen type event st

  -- An id stays among the applied ones.
  apply-seen :
      (store : Option EventDedupStore) (event : ExecutionEvent h) (id : Text) (st : State h)
      → contains id st.seen_event_ids ≡ true
      → contains id (apply h t store event st).1.seen_event_ids ≡ true
  unfolding apply note_event contains
  apply-seen store event id st known =
      let type = event_type_of event.event_type in
      let Ran = run_handler-seen type event (note_event h t event st) in
      elim (Bool-cases (is_replay h t store event st)) [
        | inl old ↦ rw old known
        | inr new ↦ rw new (
            rw Ran (elim (Bool-cases (is_empty event.event_id)) [
              | inl anonymous ↦ rw anonymous known
              | inr named ↦ rw named (ground (arith, known))
            ]))
      ]

  pub apply_all-seen :
      (store : Option EventDedupStore) (events : List (ExecutionEvent h)) (id : Text) (st : State h)
      → contains id st.seen_event_ids ≡ true
      → contains id (apply_all h t store events st).seen_event_ids ≡ true
  unfolding apply_all
  apply_all-seen store [] id st known = known
  apply_all-seen store (event ∷ events) id st known =
      apply_all-seen store events id (apply h t store event st).1
        (apply-seen store event id st known)

  seen_is_replay :
      (store : Option EventDedupStore) (event : ExecutionEvent h) (st : State h)
      → is_empty event.event_id ≡ false
      → contains event.event_id st.seen_event_ids ≡ true
      → apply h t store event st ≡ (false, st)
  unfolding apply is_replay
  seen_is_replay store event st named known = rw named (rw known refl)

  notes_event :
      (store : Option EventDedupStore) (event : ExecutionEvent h) (st : State h)
      → is_empty event.event_id ≡ false
      → (apply h t store event st).0 ≡ true
      → contains event.event_id (apply h t store event st).1.seen_event_ids ≡ true
  unfolding apply note_event
  notes_event store event st named applied =
      let type = event_type_of event.event_type in
      let Ran = run_handler-seen type event (note_event h t event st) in
      elim (Bool-cases (is_replay h t store event st)) [
        | inl old ↦ ground (arith, applied, old)
        | inr new ↦ rw new (rw Ran (rw named (contains_head event.event_id st.seen_event_ids)))
      ]

  -- An event that has an id and was applied is skipped when it comes again, after whatever events in
  -- between: the second time nothing of the state changes.
  pub apply_replay :
      (store : Option EventDedupStore) (event : ExecutionEvent h)
      (between : List (ExecutionEvent h)) (st : State h)
      → is_empty event.event_id ≡ false
      → (apply h t store event st).0 ≡ true
      → apply h t store event (apply_all h t store between (apply h t store event st).1)
        ≡ (false, apply_all h t store between (apply h t store event st).1)
  apply_replay store event between st named applied =
      seen_is_replay store event (apply_all h t store between (apply h t store event st).1) named (
        apply_all-seen store between event.event_id (apply h t store event st).1
          (notes_event store event st named applied))
