-- ===== src/Stream/Runs/Tests.antt =====
-- Runs over one store: src/fl_op/planning/plans.py.
use mathlib.Core.Path.{subst}
use fl_op.Stream.Runs.{publish}
use fl_op.Stream.Driver.Sessions.{absorb}
use fl_op.Stream.Driver.Batches.{concat, applied_ids}
use fl_op.Stream.Driver.Batches.{count_applied}
use fl_op.Stream.Driver.Batches.{last_event}
use fl_op.Stream.Driver.Sessions.{replan}
use fl_op.Stream.Driver.Batches.{apply_batch}
use fl_op.Stream.Driver.Sessions.{conclude}
use fl_op.Stream.Driver.Sessions.{drain_batch}
use fl_op.Stream.Driver.Sessions.{drain_batches}
use fl_op.Stream.Driver.Sessions.{open_session}
use fl_op.Stream.Driver.Sessions.{start}
use fl_op.Stream.Driver.Sessions.{drain}
use fl_op.Base.{
  ◌||◌, ◌+◌, length, Bool-cases, inl, inr, ◌==◌, ◌≡◌, refl, Option, none, some, true, List, [], ◌∷◌,
  ◌++◌, Text, text_eq, codes, contains, Distinct, arith, All,
}
use fl_op.Base.Strip.{strip}
use fl_op.Stream.Dedup.{EventDedupStore, is_line_break, open_store, record_published}
use fl_op.Stream.Dedup.Lines.{IsClean}
use fl_op.Stream.Apply.Tests.{hundredths, pack, half_done, done}
use fl_op.Stream.Apply.Upserts.{ExecutionEvent}
use fl_op.Stream.Driver.Sessions.{Revision, published}
use fl_op.Stream.Driver.Once.{named_ids}
use fl_op.Stream.Driver.Tests.{counting}
use fl_op.Stream.Runs.{run_plan_watch, Settings, run_plan_rolling, record_ids}
use fl_op.Stream.Dedup.Durable.{empty-IsValid}
use fl_op.Stream.Apply.Dispatch.{in_store}
use fl_op.Stream.Runs.Publish.{HasRoom}
use fl_op.Stream.Runs.Returns.{
  run_plan_watch-PublishesNew, PublishesNew, run_plan_rolling-PublishesNew,
}
use fl_op.Stream.Runs.History.{
  rolled, next, fresh, World, Clean, Process, History, effectively_once,
}

abbrev settings : Settings hundredths
settings = record {
  sources = [];
  effective_at = 0;
  objective = [];
  convergence_window = 0;
  max_ids = 9;
}

abbrev delivered : List (ExecutionEvent hundredths)
delivered = half_done ∷ done ∷ []

abbrev Ran : Option EventDedupStore → Type 0
Ran store =
    (revisions : List (Revision hundredths counting)) × (run_plan_rolling hundredths pack counting
        settings delivered store
      ≡ some (
        revisions,
        record_ids hundredths pack counting settings (published hundredths pack counting revisions)
            store,
      ))
    × PublishesNew hundredths pack counting settings store delivered revisions

run_plan_rolling-PublishesNew_example : Ran (some (open_store none))
run_plan_rolling-PublishesNew_example =
    run_plan_rolling-PublishesNew hundredths pack counting settings delivered
      (some (open_store none))

abbrev cycles : List (List (ExecutionEvent hundredths))
cycles = delivered ∷ [] ∷ delivered ∷ []

abbrev nothing_written : World
nothing_written = record { file = none; written_ids = [] }

abbrev both : List Text
both = codes "e1" ∷ codes "e2" ∷ []

abbrev written_once : World
written_once = record { file = some (codes "e1" ++ 10 ∷ codes "e2" ++ 10 ∷ []); written_ids = both }

abbrev revision : Option (ExecutionEvent hundredths) → List Text → Revision hundredths counting
revision event ids = record {
  event = event;
  plan = 0;
  snapshot_id = [];
  n_coalesced_events = 1;
  applied_event_ids = ids;
}

abbrev three_revisions : List (Revision hundredths counting)
three_revisions =
    revision none []
    ∷ revision (some half_done) (codes "e1" ∷ [])
    ∷ revision (some done) (codes "e2" ∷ [])
    ∷ []

abbrev stored : EventDedupStore
stored = record { file = written_once.file; ids = both; seen = both }

-- The events are delivered to a run, and again to the next one, which writes its baseline only.
first_run :
    Process hundredths pack counting settings nothing_written
      (named_ids hundredths pack delivered)
      written_once
unfolding published run_plan_rolling open_store drain start open_session drain_batches
    record_published drain_batch conclude apply_batch contains replan last_event count_applied
    applied_ids absorb
first_run = rolled delivered three_revisions stored refl

second_run :
    Process hundredths pack counting settings written_once
      (named_ids hundredths pack delivered)
      written_once
unfolding published run_plan_rolling open_store drain start open_session drain_batches drain_batch
    record_published conclude apply_batch contains strip absorb
second_run = rolled delivered (revision none [] ∷ []) stored refl

both_listed : named_ids hundredths pack delivered ≡ both
unfolding named_ids concat
both_listed = refl

IsClean-contains : (i : Text) (xs : List Text) → All IsClean xs → contains i xs ≡ true → IsClean i
unfolding contains
IsClean-contains i [] clean m = cc
IsClean-contains i (x ∷ xs) clean m = elim (Bool-cases (x == i)) [
  | inl same ↦ subst IsClean ((text_eq.agrees_iff x i).0 same) clean.0
  | inr other ↦ IsClean-contains i xs clean.1 (rw other at m)
]

both-Clean : Clean (both ++ both)
unfolding strip is_line_break
both-Clean i m = IsClean-contains i (both ++ both) (ground arith) m

history : History hundredths pack counting settings (both ++ both) written_once
history = rw both_listed at (next (next fresh first_run) second_run)

effectively_once_example :
    Distinct both × ((i : Text) → contains i both ≡ contains i (both ++ both))
effectively_once_example =
    effectively_once hundredths pack counting settings (both ++ both) written_once history
      both-Clean (omega arith)

watched_once :
    run_plan_watch hundredths pack counting settings cycles (some (open_store none))
    ≡ some (three_revisions, some stored)
unfolding run_plan_watch open_store drain start drain_batches drain_batch conclude apply_batch
    contains open_session publish replan absorb applied_ids record_published last_event
    count_applied
watched_once = refl

cycles-Clean : Clean (named_ids hundredths pack (concat cycles))
unfolding named_ids concat
cycles-Clean = both-Clean

empty_room :
    HasRoom hundredths pack counting settings
      (some (open_store none))
      (length (published hundredths pack counting three_revisions) + 0)
unfolding published open_store
empty_room = (omega arith, empty-IsValid)

run_plan_watch-PublishesNew_example :
    PublishesNew hundredths pack counting settings
      (some (open_store none))
      (concat cycles)
      three_revisions
    × HasRoom hundredths pack counting settings (some stored) 0
    × ((i : Text)
        → in_store hundredths pack (some stored) i ≡ (
            in_store hundredths pack (some (open_store none)) i
            || contains i (published hundredths pack counting three_revisions)))
run_plan_watch-PublishesNew_example =
    run_plan_watch-PublishesNew hundredths pack counting settings cycles (some (open_store none))
      (some stored) three_revisions 0 watched_once cycles-Clean empty_room
