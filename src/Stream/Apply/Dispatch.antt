-- ===== src/Stream/Apply/Dispatch.antt =====
-- `EventApplicator.apply` of src/fl_op/stream/apply.py: replays, the handler of the type, watermarks.
use fl_op.Base.{
  ℕ, Option, none, some, Bool, true, false, ◌&&◌, ◌||◌, not, List, [], ◌∷◌, Text, text_eq, codes,
  contains, if◌then◌else◌,
}
use fl_op.Base.Dict.{Dict, get}
use fl_op.Base.Strip.{is_empty}
use fl_op.Stream.Dedup.{EventDedupStore, store_contains}
use fl_op.Stream.Apply.Rows.{Host, Sources, Tables, contracts_for}
use fl_op.Stream.Apply.Tasks.{State, complete_task, set_task_started, remove_by_key}
use fl_op.Stream.Apply.Passes.{apply_task_progress}
use fl_op.Stream.Apply.Upserts.{
  ExecutionEvent, append_payload, bump_watermark, parse_observed, upsert_entity, merge_inventory,
}
use fl_op.Stream.Apply.Telemetry.{append_observation}

-- `SUPPORTED_EVENT_TYPES` of src/fl_op/stream/source.py
pub data EventType : Type 0 where
  task_started task_progress task_completed order_created order_cancelled : EventType
  asset_unavailable forecast_updated observation_recorded entity_corrected inventory_adjusted :
      EventType

abbrev pub event_types : Dict Text EventType
event_types =
    (codes "task.started", task_started)
    ∷ (codes "task.progress", task_progress)
    ∷ (codes "task.completed", task_completed)
    ∷ (codes "order.created", order_created)
    ∷ (codes "order.cancelled", order_cancelled)
    ∷ (codes "asset.unavailable", asset_unavailable)
    ∷ (codes "forecast.updated", forecast_updated)
    ∷ (codes "observation.recorded", observation_recorded)
    ∷ (codes "entity.corrected", entity_corrected)
    ∷ (codes "inventory.adjusted", inventory_adjusted)
    ∷ []

unfoldable pub event_type_of : Text → Option EventType
unfolding get
event_type_of name = get name event_types

-- `_EVENT_ENTITY`
unfoldable pub event_entity : EventType → Option Text
event_entity entity_corrected = none
event_entity asset_unavailable = some (codes "asset")
event_entity inventory_adjusted = some (codes "location")
event_entity forecast_updated = some (codes "forecast")
event_entity observation_recorded = some (codes "observation")
event_entity _ = some (codes "task")

module _ (h : Host) (t : Tables) where
  -- `_update_forecast`
  unfoldable pub update_forecast : ExecutionEvent h → Sources h → Sources h
  unfolding append_payload
  update_forecast event sources =
      if is_empty event.payload
      then sources
      else append_payload h t (codes "forecast") event.payload none sources

  abbrev on_sources : (Sources h → Sources h) → State h → State h
  on_sources f st = record st { sources = f st.sources }

  -- `_HANDLERS`
  unfoldable pub handle : EventType → ExecutionEvent h → State h → State h
  unfolding set_task_started apply_task_progress complete_task append_payload remove_by_key
      update_forecast append_observation upsert_entity merge_inventory
  handle task_started event = on_sources (set_task_started h t event.entity_ref)
  handle task_progress event =
      apply_task_progress h t event.entity_ref event.payload event.observed_at
  handle task_completed event = complete_task h t event.entity_ref event.observed_at (codes "event")
  handle order_created event = on_sources (append_payload h t (codes "task") event.payload none)
  handle order_cancelled event = on_sources (remove_by_key h t event.entity_ref (codes "task"))
  handle asset_unavailable event = on_sources (remove_by_key h t event.entity_ref (codes "asset"))
  handle forecast_updated event = on_sources (update_forecast event)
  handle observation_recorded event = append_observation h t event
  handle entity_corrected event = upsert_entity h t event
  handle inventory_adjusted event = on_sources (merge_inventory h t event.payload)

  -- `_advance_watermarks`
  unfoldable pub bump_all : List Text → Option ℕ → Dict Text ℕ → Dict Text ℕ
  unfolding bump_watermark
  bump_all [] observed watermarks = watermarks
  bump_all (cid ∷ cids) observed watermarks =
      bump_all cids observed (bump_watermark h t cid observed watermarks)

  unfoldable pub bump_entity : Option Text → Option ℕ → State h → State h
  unfolding bump_all contracts_for
  bump_entity none observed st = st
  bump_entity (some entity) observed st = record st {
    watermarks = bump_all (contracts_for t entity st.sources) observed st.watermarks;
  }

  unfoldable pub advance_watermarks : EventType → ExecutionEvent h → State h → State h
  unfolding event_entity parse_observed bump_entity
  advance_watermarks type event st = bump_entity (event_entity type) (parse_observed h t event) st

  -- An id that this run applied, or that an earlier run published.
  abbrev pub in_store : Option EventDedupStore → Text → Bool
  in_store none event_id = false
  in_store (some store) event_id = store_contains store event_id

  unfoldable pub is_replay : Option EventDedupStore → ExecutionEvent h → State h → Bool
  unfolding store_contains
  is_replay store event st =
      not (is_empty event.event_id)
      && (contains event.event_id st.seen_event_ids || in_store store event.event_id)

  unfoldable pub note_event : ExecutionEvent h → State h → State h
  note_event event st =
      if is_empty event.event_id
      then st
      else record st { seen_event_ids = event.event_id ∷ st.seen_event_ids }

  -- The handler of the type, if there is one, and the watermarks after it.
  unfoldable pub run_handler : Option EventType → ExecutionEvent h → State h → State h
  unfolding handle advance_watermarks
  run_handler none event st = st
  run_handler (some type) event st = advance_watermarks type event (handle type event st)

  -- `apply`: whether the event was applied, and the state after it
  unfoldable pub apply : Option EventDedupStore → ExecutionEvent h → State h → Bool × State h
  unfolding is_replay note_event run_handler event_type_of
  apply store event st =
      if is_replay store event st
      then (false, st)
      else (true, run_handler (event_type_of event.event_type) event (note_event event st))

  -- A batch of events, in order.
  unfoldable pub apply_all : Option EventDedupStore → List (ExecutionEvent h) → State h → State h
  unfolding apply
  apply_all store [] st = st
  apply_all store (event ∷ events) st = apply_all store events (apply store event st).1
