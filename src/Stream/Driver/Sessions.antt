-- ===== src/Stream/Driver/Sessions.antt =====
-- Sessions and their revisions: `StreamDriver` and `StreamSession` of src/fl_op/stream/driver.py.
-- The store is the applicator's, and `on_revision` may change it: both hold one object.
use fl_op.Base.{
  or_else, ℕ, Option, none, some, Bool, List, [], ◌∷◌, ◌++◌, Text, codes, any, if◌then◌else◌,
}
use fl_op.Base.Dict.{Dict}
use fl_op.Base.Strip.{is_empty}
use fl_op.Stream.Dedup.{EventDedupStore}
use fl_op.Stream.Apply.Rows.{Host, Sources, Tables}
use fl_op.Stream.Apply.Tasks.{Completion, CoverageReport, State}
use fl_op.Stream.Apply.Upserts.{ExecutionEvent}
use fl_op.Stream.Driver.Batches.{
  count_applied, applied_ids, apply_batch, last_event, event_now, coalesce,
}

-- The snapshot builder and the rolling adapter, as the driver calls them. Neither raises.
pub record Planner (h : Host) : Type 1 where
  pub Snapshot : Type 0
  pub Plan : Type 0
  -- sources, effective time, lineage reference, watermarks
  pub build_from_sources : Sources h → ℕ → Text → Option (Dict Text ℕ) → Snapshot
  pub snapshot_id : Snapshot → Text
  pub asset_types : Snapshot → Dict Text Text
  pub service_task_reasons : Snapshot → Dict Text Text
  -- snapshot, `now`, objective, previous plan and reasons
  pub plan : Snapshot → ℕ → Text → Option (Plan × Dict Text Text) → Plan

pub record Revision (h : Host) (p : Planner h) : Type 0 where
  pub event : Option (ExecutionEvent h)
  pub plan : p.Plan
  pub snapshot_id : Text
  pub n_coalesced_events : ℕ
  pub applied_event_ids : List Text

-- `StreamSession` with the applicator's state (its rows are `working`), its store and the trails.
pub record StreamSession (h : Host) (p : Planner h) : Type 0 where
  pub applicator : State h
  pub dedup_store : Option EventDedupStore
  pub effective_at : ℕ
  pub objective : Text
  pub previous_plan : Option p.Plan
  pub previous_service_reasons : Dict Text Text
  pub completion_trail : List (List (Completion h) × p.Plan)
  pub coverage_trail : List (List (CoverageReport h))
  pub prognosis_trail : List (p.Plan × Dict Text Text)

module _ (h : Host) (t : Tables) (p : Planner h) where
  -- `StreamDriver.session`, with the applicator of a new driver
  unfoldable pub open_session : Sources h → Option EventDedupStore → ℕ → Text → StreamSession h p
  open_session sources store effective_at objective = record {
    applicator = record {
      sources = sources;
      seen_event_ids = [];
      watermarks = [];
      completions = [];
      coverage = [];
      coverage_reports = [];
    };
    dedup_store = store;
    effective_at = effective_at;
    objective = objective;
    previous_plan = none;
    previous_service_reasons = [];
    completion_trail = [];
    coverage_trail = [];
    prognosis_trail = [];
  }

  -- `start` with `_baseline`
  unfoldable pub start : StreamSession h p → Revision h p × StreamSession h p
  start s =
      let snapshot =
        p.build_from_sources s.applicator.sources s.effective_at (codes "stream://initial") none in
      let plan = p.plan snapshot s.effective_at s.objective none in
      (
        record {
          event = none;
          plan = plan;
          snapshot_id = p.snapshot_id snapshot;
          n_coalesced_events = 1;
          applied_event_ids = [];
        },
        record s {
          previous_plan = some plan;
          previous_service_reasons = p.service_task_reasons snapshot;
        },
      )

  -- Completions and coverage reports go to their trails when there are any.
  unfoldable pub record_completions : p.Plan → StreamSession h p → StreamSession h p
  record_completions previous s = if is_empty s.applicator.completions then s else record s {
    completion_trail = s.completion_trail ++ (s.applicator.completions, previous) ∷ [];
    applicator = record s.applicator { completions = [] };
  }

  unfoldable pub record_coverage : StreamSession h p → StreamSession h p
  record_coverage s = if is_empty s.applicator.coverage_reports then s else record s {
    coverage_trail = s.coverage_trail ++ s.applicator.coverage_reports ∷ [];
    applicator = record s.applicator { coverage_reports = [] };
  }

  abbrev pub OnRevision : Type 0
  OnRevision = Revision h p → Option EventDedupStore → Option EventDedupStore

  -- The rebuild after a batch in which an event was applied.
  unfoldable pub replan :
      OnRevision
      → ExecutionEvent h
      → ℕ
      → List Text
      → p.Plan
      → StreamSession h p
      → Revision h p × StreamSession h p
  unfolding event_now
  replan on_revision last n ids previous s =
      let snapshot =
        p.build_from_sources s.applicator.sources s.effective_at
          (codes "stream://" ++ last.event_id) (some s.applicator.watermarks) in
      let plan =
        p.plan snapshot (event_now h t last s.effective_at) s.objective
          (some (previous, s.previous_service_reasons)) in
      let revision : Revision h p = record {
        event = some last;
        plan = plan;
        snapshot_id = p.snapshot_id snapshot;
        n_coalesced_events = n;
        applied_event_ids = ids;
      } in
      (
        revision,
        record s {
          dedup_store = on_revision revision s.dedup_store;
          previous_plan = some plan;
          previous_service_reasons = p.service_task_reasons snapshot;
          prognosis_trail = s.prognosis_trail ++ (plan, p.asset_types snapshot) ∷ [];
        },
      )

  -- The session after the events of a batch, with their completions and coverage on the trails.
  unfoldable pub absorb : p.Plan → State h → StreamSession h p → StreamSession h p
  unfolding record_completions record_coverage
  absorb previous after s =
      record_coverage (record_completions previous (record s { applicator = after }))

  -- The turn of the loop of `drain` after its events, where a batch that applies nothing makes no
  -- revision.
  unfoldable pub conclude :
      OnRevision
      → p.Plan
      → ExecutionEvent h
      → List Text
      → List Bool
      → StreamSession h p
      → List (Revision h p) × StreamSession h p
  conclude on_revision previous last ids applied s =
      let (revision, next) = replan on_revision last (count_applied h t applied) ids previous s in
      if any (λ b. b) applied then (revision ∷ [], next) else ([], s)

  -- One turn of the loop of `drain`, after `previous`.
  unfoldable pub drain_batch :
      OnRevision
      → p.Plan
      → List (ExecutionEvent h)
      → StreamSession h p
      → List (Revision h p) × StreamSession h p
  drain_batch on_revision previous [] s = ([], absorb previous s.applicator s)
  drain_batch on_revision previous (event ∷ events) s =
      let (applied, after) = apply_batch h t s.dedup_store (event ∷ events) s.applicator in
      conclude on_revision previous (last_event h t event events)
        (applied_ids h t (event ∷ events) applied) applied (absorb previous after s)

  -- The loop of `drain`: each batch after the plan that the one before it left.
  unfoldable pub drain_batches :
      OnRevision
      → List (List (ExecutionEvent h))
      → p.Plan
      → StreamSession h p
      → List (Revision h p) × StreamSession h p
  drain_batches on_revision [] previous s = ([], s)
  drain_batches on_revision (batch ∷ batches) previous s =
      let (made, next) = drain_batch on_revision previous batch s in
      let (others, final) =
        drain_batches on_revision batches (or_else next.previous_plan previous) next in
      (made ++ others, final)

  -- `drain`, with none for the RuntimeError where `start` did not run
  unfoldable pub drain :
      OnRevision
      → ℕ
      → List (ExecutionEvent h)
      → StreamSession h p
      → Option (List (Revision h p) × StreamSession h p)
  unfolding coalesce
  drain on_revision window events s = go s.previous_plan
    where
      go : Option p.Plan → Option (List (Revision h p) × StreamSession h p)
      go none = none
      go (some previous) =
          some (drain_batches on_revision (coalesce h t events window s.effective_at) previous s)

  -- The ids of all revisions.
  unfoldable pub published : List (Revision h p) → List Text
  published [] = []
  published (revision ∷ revisions) = revision.applied_event_ids ++ published revisions
