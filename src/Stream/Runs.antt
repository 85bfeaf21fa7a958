-- ===== src/Stream/Runs.antt =====
-- Runs over the durable store: `run_plan_rolling` and `run_plan_watch` of
-- src/fl_op/planning/plans.py, up to what they write to the store. The revisions that are written are
-- the run's result; files of plans, tracking and the clock are left out.
mod Tests
pub mod Publish
pub mod Returns
pub mod History
use fl_op.Base.{ℕ, ◌≡◌, refl, Option, none, some, List, [], ◌∷◌, ◌++◌, Text, if◌then◌else◌}
use fl_op.Base.Strip.{is_empty}
use fl_op.Stream.Dedup.{EventDedupStore, open_store, record_published}
use fl_op.Stream.Apply.Rows.{Host, Sources, Tables}
use fl_op.Stream.Apply.Upserts.{ExecutionEvent}
use fl_op.Stream.Driver.Sessions.{
  published, Planner, Revision, StreamSession, OnRevision, open_session, start, drain,
}

-- What a run is configured with; `max_ids` is EVENT_DEDUP_MAX_IDS.
pub record Settings (h : Host) : Type 0 where
  pub sources : Sources h
  pub effective_at : ℕ
  pub objective : Text
  pub convergence_window : ℕ
  pub max_ids : ℕ

module _ (h : Host) (t : Tables) (p : Planner h) (c : Settings h) where
  -- `dedup_store.record_published(…)` where there is a store
  unfoldable pub record_ids : List Text → Option EventDedupStore → Option EventDedupStore
  record_ids ids none = none
  record_ids ids (some store) = some (record_published c.max_ids ids store)

  -- The driver without a callback.
  abbrev pub no_callback : OnRevision h t p
  no_callback revision store = store

  -- `publish`, as far as the store goes
  unfoldable pub publish : OnRevision h t p
  unfolding record_ids
  publish revision store =
      if is_empty revision.applied_event_ids
      then store
      else record_ids revision.applied_event_ids store

  -- `StreamDriver.run`: the baseline and the revisions of the events
  unfoldable pub run :
      List (ExecutionEvent h) → Option EventDedupStore → Option (List (Revision h p))
  run events store =
      let (baseline, s) =
        start h t p (open_session h t p c.sources store c.effective_at c.objective) in
      go baseline (drain h t p no_callback c.convergence_window events s)
    where
      go :
          Revision h p
          → Option (List (Revision h p) × StreamSession h p)
          → Option (List (Revision h p))
      go baseline none = none
      go baseline (some (revisions, _)) = some (baseline ∷ revisions)

  -- `run_plan_rolling`: the revisions it writes and the store after them
  unfoldable pub run_plan_rolling :
      List (ExecutionEvent h)
      → Option EventDedupStore
      → Option (List (Revision h p) × Option EventDedupStore)
  unfolding run record_ids
  run_plan_rolling events store = go (run events store)
    where
      go : Option (List (Revision h p)) → Option (List (Revision h p) × Option EventDedupStore)
      go none = none
      go (some revisions) = some (revisions, record_ids (published h t p revisions) store)

  -- The cycles of `run_plan_watch`, each over the events that its source had.
  unfoldable pub watch_cycles :
      List (List (ExecutionEvent h))
      → StreamSession h p
      → Option (List (Revision h p) × StreamSession h p)
  watch_cycles [] s = some ([], s)
  watch_cycles (events ∷ cycles) s =
      if is_empty events
      then watch_cycles cycles s
      else go (λ s'. watch_cycles cycles s') (drain h t p publish c.convergence_window events s)
    where
      join :
          List (Revision h p)
          → Option (List (Revision h p) × StreamSession h p)
          → Option (List (Revision h p) × StreamSession h p)
      join made none = none
      join made (some (others, final)) = some (made ++ others, final)

      go :
          (StreamSession h p → Option (List (Revision h p) × StreamSession h p))
          → Option (List (Revision h p) × StreamSession h p)
          → Option (List (Revision h p) × StreamSession h p)
      go later none = none
      go later (some (made, s')) = join made (later s')

  -- `run_plan_watch`, stopped after the cycles
  unfoldable pub run_plan_watch :
      List (List (ExecutionEvent h))
      → Option EventDedupStore
      → Option (List (Revision h p) × Option EventDedupStore)
  unfolding watch_cycles
  run_plan_watch cycles store =
      let (baseline, s) =
        start h t p (open_session h t p c.sources store c.effective_at c.objective) in
      go baseline (watch_cycles cycles (record s { dedup_store = publish baseline s.dedup_store }))
    where
      go :
          Revision h p
          → Option (List (Revision h p) × StreamSession h p)
          → Option (List (Revision h p) × Option EventDedupStore)
      go baseline none = none
      go baseline (some (revisions, final)) = some (baseline ∷ revisions, final.dedup_store)
