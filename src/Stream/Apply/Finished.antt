-- ===== src/Stream/Apply/Finished.antt =====
-- Events that end a task or take an asset away: src/fl_op/stream/apply.py.
use mathlib.Core.Path.{subst}
use fl_op.Base.{
  ap, or_else, sym, ◌≡◌, refl, Option, none, some, true, false, Text, text_eq, codes, contains,
  arith, ℕ, [],
}
use fl_op.Stream.Dedup.{EventDedupStore}
use fl_op.Stream.Apply.Rows.{Host, Tables, contracts_for, key_field}
use fl_op.Stream.Apply.Tasks.{State, complete_task, remove_by_key}
use fl_op.Stream.Apply.Upserts.{ExecutionEvent, parse_observed}
use fl_op.Stream.Apply.Removal.{IsGone, removed-IsGone}
use fl_op.Stream.Apply.Dispatch.{
  EventType, task_started, task_progress, task_completed, order_created, order_cancelled,
  asset_unavailable, forecast_updated, observation_recorded, entity_corrected, inventory_adjusted,
  handle, advance_watermarks, note_event, is_replay, apply, run_handler, event_entity,
  event_type_of, bump_entity,
}

-- The entity that an event type takes out of planning.
abbrev pub ended_entity : EventType → Option Text
ended_entity task_completed = some (codes "task")
ended_entity order_cancelled = some (codes "task")
ended_entity asset_unavailable = some (codes "asset")
ended_entity _ = none

module _ (h : Host) (t : Tables) where
  taken-IsGone :
      (own : Text) (event : ExecutionEvent h) (st : State h) (entity cid key : Text)
      → some own ≡ some entity
      → contains cid (contracts_for t entity st.sources) ≡ true
      → key_field t cid ≡ some key
      → IsGone h t event.entity_ref key cid (remove_by_key h t event.entity_ref own st.sources)
  taken-IsGone own event st entity cid key owned loaded keyed =
      removed-IsGone h t event.entity_ref own cid key st.sources
        (subst (λ e. contains cid (contracts_for t e st.sources) ≡ true)
          (sym (ap (λ o. or_else o []) owned)) loaded)
        keyed

  handle-IsGone :
      (type : EventType) (event : ExecutionEvent h) (st : State h) (entity cid key : Text)
      → ended_entity type ≡ some entity
      → contains cid (contracts_for t entity st.sources) ≡ true
      → key_field t cid ≡ some key
      → IsGone h t event.entity_ref key cid (handle h t type event st).sources
  unfolding handle complete_task
  handle-IsGone task_completed event st entity cid key ends =
      taken-IsGone (codes "task") event st entity cid key ends
  handle-IsGone order_cancelled event st entity cid key ends =
      taken-IsGone (codes "task") event st entity cid key ends
  handle-IsGone asset_unavailable event st entity cid key ends =
      taken-IsGone (codes "asset") event st entity cid key ends
  handle-IsGone task_started event st entity cid key ends = ground (arith, ends)
  handle-IsGone task_progress event st entity cid key ends = ground (arith, ends)
  handle-IsGone order_created event st entity cid key ends = ground (arith, ends)
  handle-IsGone forecast_updated event st entity cid key ends = ground (arith, ends)
  handle-IsGone observation_recorded event st entity cid key ends = ground (arith, ends)
  handle-IsGone entity_corrected event st entity cid key ends = ground (arith, ends)
  handle-IsGone inventory_adjusted event st entity cid key ends = ground (arith, ends)

  bump_entity-sources :
      (entity : Option Text) (observed : Option ℕ) (st : State h)
      → (bump_entity h t entity observed st).sources ≡ st.sources
  unfolding bump_entity
  bump_entity-sources none observed st = refl
  bump_entity-sources (some e) observed st = refl

  note_event-sources :
      (event : ExecutionEvent h) (st : State h) → (note_event h t event st).sources ≡ st.sources
  unfolding note_event
  note_event-sources event st = ground arith

  -- After a completed task, a cancelled order or an unavailable asset is applied, no row of its loaded
  -- contracts that have a key column carries its reference.
  pub apply-IsGone :
      (store : Option EventDedupStore) (event : ExecutionEvent h) (st : State h) (type : EventType)
      (entity cid key : Text)
      → is_replay h t store event st ≡ false
      → event_type_of event.event_type ≡ some type
      → ended_entity type ≡ some entity
      → contains cid (contracts_for t entity st.sources) ≡ true
      → key_field t cid ≡ some key
      → IsGone h t event.entity_ref key cid (apply h t store event st).1.sources
  unfolding apply run_handler advance_watermarks
  apply-IsGone store event st type entity cid key new typed ends loaded keyed = rw new (
      rw typed (
        rw
          (bump_entity-sources (event_entity type) (parse_observed h t event)
            (handle h t type event (note_event h t event st)))
          (handle-IsGone type event (note_event h t event st) entity cid key ends
            (rw (note_event-sources event st) loaded) keyed)))
