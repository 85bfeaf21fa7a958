-- ===== src/Stream/Apply/Horizon.antt =====
-- The visibility horizon of src/fl_op/stream/apply.py: watermarks only move forward.
use mathlib.Core.Path.{subst}
use fl_op.Base.{
  ◌≡◌, sym, Option, none, some, true, false, List, [], ◌∷◌, Text, text_eq, contains, if◌then◌else◌,
  arith, ℕ, ◌≤◌, Option-cases, Bool-cases, inl, inr, ◌==◌, ltb,
}
use fl_op.Base.Dict.{Dict, get, get-put}
use fl_op.Stream.Dedup.{EventDedupStore}
use fl_op.Stream.Apply.Rows.{Host, Sources, Tables, contracts_for}
use fl_op.Stream.Apply.Tasks.{complete_task, State}
use fl_op.Stream.Apply.Upserts.{
  ExecutionEvent, bump_watermark, correct, parse_observed, upsert_entity,
}
use fl_op.Stream.Apply.Telemetry.{append_observation}
use fl_op.Stream.Apply.Dispatch.{
  EventType, task_started, task_progress, task_completed, order_created, order_cancelled,
  asset_unavailable, forecast_updated, observation_recorded, entity_corrected, inventory_adjusted,
  handle, advance_watermarks, note_event, is_replay, apply, apply_all, bump_all, bump_entity,
  run_handler, event_entity, event_type_of,
}
use fl_op.Stream.Apply.Passes.{apply_task_progress, apply_scalar_progress}
use fl_op.Stream.Apply.Tasks.{complete_task}
use fl_op.Stream.Apply.Replay.{
  try_coverage-KeepsSeen, scalar_progress_with-KeepsSeen, derive_progress-KeepsSeen,
}

-- The contract's watermark is at least this instant.
abbrev pub Reaches : Text → ℕ → Dict Text ℕ → Type 0
Reaches cid instant watermarks =
    (horizon : ℕ) × (get cid watermarks ≡ some horizon) × (instant ≤ horizon)

module _ (h : Host) (t : Tables) where
  abbrev later_of : Option ℕ → ℕ → ℕ
  later_of none observed = observed
  later_of (some current) observed = if ltb current observed then observed else current

  -- The newer of the two, at the contract; every other contract's as it was.
  get-bump_watermark :
      (j cid : Text) (observed : ℕ) (watermarks : Dict Text ℕ)
      → get j (bump_watermark h t cid (some observed) watermarks)
        ≡ (if cid == j then some (later_of (get cid watermarks) observed) else get j watermarks)
  unfolding bump_watermark
  get-bump_watermark j cid observed watermarks = elim (Option-cases (get cid watermarks)) [
    | inl absent ↦ rw absent (get-put cid j observed watermarks)
    | inr (current, found) ↦ elim (Bool-cases (ltb current observed)) [
      | inl newer ↦ rw found (rw newer (get-put cid j observed watermarks))
      | inr older ↦ rw found (rw older (ground (arith, found, text_eq.agrees_iff cid j)))
    ]
  ]

  later_of_le :
      (w : Option ℕ) (observed : ℕ)
      → (observed ≤ later_of w observed)
        × ((horizon : ℕ) → w ≡ some horizon → horizon ≤ later_of w observed)
  later_of_le none observed = ground arith
  later_of_le (some current) observed = (ground arith, λ horizon e. ground arith)

  bump_watermark-Reaches :
      (j cid : Text) (observed : Option ℕ) (instant : ℕ) (watermarks : Dict Text ℕ)
      → Reaches j instant watermarks
      → Reaches j instant (bump_watermark h t cid observed watermarks)
  unfolding bump_watermark
  bump_watermark-Reaches j cid none instant watermarks r = r
  bump_watermark-Reaches j cid (some observed) instant watermarks (horizon, e, le) =
      elim (Bool-cases (cid == j)) [
        | inl same ↦ (
          later_of (get cid watermarks) observed,
          ground (arith, get-bump_watermark j cid observed watermarks),
          ground (
            arith,
            text_eq.agrees_iff cid j,
            (later_of_le (get cid watermarks) observed).1 horizon,
          ),
        )
        | inr other ↦ (horizon, ground (arith, get-bump_watermark j cid observed watermarks), le)
      ]

  bump_watermark-reached :
      (j cid : Text) (observed : ℕ) (watermarks : Dict Text ℕ)
      → cid == j ≡ true
      → Reaches j observed (bump_watermark h t cid (some observed) watermarks)
  bump_watermark-reached j cid observed watermarks same = (
    later_of (get cid watermarks) observed,
    ground (arith, get-bump_watermark j cid observed watermarks),
    (later_of_le (get cid watermarks) observed).0,
  )

  bump_all-Reaches :
      (j : Text) (cids : List Text) (observed : Option ℕ) (instant : ℕ) (watermarks : Dict Text ℕ)
      → Reaches j instant watermarks
      → Reaches j instant (bump_all h t cids observed watermarks)
  unfolding bump_all
  bump_all-Reaches j [] observed instant watermarks r = r
  bump_all-Reaches j (cid ∷ cids) observed instant watermarks r =
      bump_all-Reaches j cids observed instant _
        (bump_watermark-Reaches j cid observed instant watermarks r)

  bump_all-reached :
      (j : Text) (cids : List Text) (observed : ℕ) (watermarks : Dict Text ℕ)
      → contains j cids ≡ true
      → Reaches j observed (bump_all h t cids (some observed) watermarks)
  unfolding bump_all contains
  bump_all-reached j [] observed watermarks m = ground arith
  bump_all-reached j (cid ∷ cids) observed watermarks m = elim (Bool-cases (cid == j)) [
    | inl same ↦
        bump_all-Reaches j cids (some observed) observed _
          (bump_watermark-reached j cid observed watermarks same)
    | inr other ↦ bump_all-reached j cids observed _ (ground arith)
  ]

  correct-Reaches :
      (j : Text) (instant : ℕ) (event : ExecutionEvent h) (done : Option (Text × Sources h))
      (st : State h)
      → Reaches j instant st.watermarks
      → Reaches j instant (correct h t event done st).watermarks
  unfolding correct
  correct-Reaches j instant event none st r = r
  correct-Reaches j instant event (some (cid, sources)) st r =
      bump_watermark-Reaches j cid (parse_observed h t event) instant st.watermarks r

  bump_entity-Reaches :
      (j : Text) (instant : ℕ) (entity : Option Text) (observed : Option ℕ) (st : State h)
      → Reaches j instant st.watermarks
      → Reaches j instant (bump_entity h t entity observed st).watermarks
  unfolding bump_entity
  bump_entity-Reaches j instant none observed st r = r
  bump_entity-Reaches j instant (some entity) observed st r =
      bump_all-Reaches j (contracts_for t entity st.sources) observed instant st.watermarks r

  handle-Reaches :
      (j : Text) (instant : ℕ) (type : EventType) (event : ExecutionEvent h) (st : State h)
      → Reaches j instant st.watermarks
      → Reaches j instant (handle h t type event st).watermarks
  unfolding handle complete_task apply_task_progress apply_scalar_progress append_observation
      upsert_entity
  handle-Reaches j instant task_started event st r = r
  handle-Reaches j instant task_progress event st r =
      subst (Reaches j instant)
        (sym
          (try_coverage-KeepsSeen h t event.entity_ref event.payload event.observed_at st _
            (scalar_progress_with-KeepsSeen h t event.entity_ref event.observed_at _ _ st)).1)
        r
  handle-Reaches j instant task_completed event st r = r
  handle-Reaches j instant order_created event st r = r
  handle-Reaches j instant order_cancelled event st r = r
  handle-Reaches j instant asset_unavailable event st r = r
  handle-Reaches j instant forecast_updated event st r = r
  handle-Reaches j instant observation_recorded event st r =
      subst (Reaches j instant) (sym (derive_progress-KeepsSeen h t event _ _).1) r
  handle-Reaches j instant entity_corrected event st r = correct-Reaches j instant event _ st r
  handle-Reaches j instant inventory_adjusted event st r = r

  run_handler-Reaches :
      (j : Text) (instant : ℕ) (type : Option EventType) (event : ExecutionEvent h) (st : State h)
      → Reaches j instant st.watermarks
      → Reaches j instant (run_handler h t type event st).watermarks
  unfolding run_handler advance_watermarks
  run_handler-Reaches j instant none event st r = r
  run_handler-Reaches j instant (some type) event st r =
      bump_entity-Reaches j instant (event_entity type) _ _
        (handle-Reaches j instant type event st r)

  note_event-watermarks :
      (event : ExecutionEvent h) (st : State h)
      → (note_event h t event st).watermarks ≡ st.watermarks
  unfolding note_event
  note_event-watermarks event st = ground arith

  apply-Reaches :
      (j : Text) (instant : ℕ) (store : Option EventDedupStore) (event : ExecutionEvent h)
      (st : State h)
      → Reaches j instant st.watermarks
      → Reaches j instant (apply h t store event st).1.watermarks
  unfolding apply
  apply-Reaches j instant store event st r = elim (Bool-cases (is_replay h t store event st)) [
    | inl old ↦ rw old r
    | inr new ↦ rw new (
        run_handler-Reaches j instant (event_type_of event.event_type) event
          (note_event h t event st)
          (subst (Reaches j instant) (sym (note_event-watermarks event st)) r))
  ]

  -- Whatever events are applied, in whatever order of their times, a contract's watermark never
  -- disappears and never moves back.
  pub watermarks_forward :
      (j : Text) (instant : ℕ) (store : Option EventDedupStore) (events : List (ExecutionEvent h))
      (st : State h)
      → Reaches j instant st.watermarks
      → Reaches j instant (apply_all h t store events st).watermarks
  unfolding apply_all
  watermarks_forward j instant store [] st r = r
  watermarks_forward j instant store (event ∷ events) st r =
      watermarks_forward j instant store events (apply h t store event st).1
        (apply-Reaches j instant store event st r)

  -- Applying an event of a type that has an entity brings the watermark of each of the entity's loaded
  -- contracts at least to the event's observed time, if that can be parsed.
  pub watermarks_reached :
      (store : Option EventDedupStore) (event : ExecutionEvent h) (st : State h) (type : EventType)
      (entity cid : Text) (observed : ℕ)
      → is_replay h t store event st ≡ false
      → event_type_of event.event_type ≡ some type
      → event_entity type ≡ some entity
      → parse_observed h t event ≡ some observed
      → contains cid
          (contracts_for t entity (handle h t type event (note_event h t event st)).sources)
        ≡ true
      → Reaches cid observed (apply h t store event st).1.watermarks
  unfolding apply run_handler advance_watermarks bump_entity
  watermarks_reached store event st type entity cid observed new typed owned parsed loaded =
      rw new (rw typed (rw owned (rw parsed (bump_all-reached cid _ observed _ loaded))))
