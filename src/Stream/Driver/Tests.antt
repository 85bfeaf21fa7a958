-- ===== src/Stream/Driver/Tests.antt =====
-- Small sessions: src/fl_op/stream/driver.py.
use fl_op.Stream.Driver.Sessions.{absorb}
use fl_op.Stream.Driver.Batches.{applied_ids}
use fl_op.Stream.Driver.Sessions.{replan}
use fl_op.Base.{contains}
use fl_op.Stream.Driver.Batches.{apply_batch}
use fl_op.Stream.Driver.Sessions.{conclude}
use fl_op.Stream.Driver.Sessions.{drain_batch}
use fl_op.Stream.Driver.Sessions.{drain_batches}
use fl_op.Base.{
  ℕ, ◌≡◌, refl, Option, none, some, List, [], ◌∷◌, Text, text_eq, codes, arith, length,
}
use fl_op.Stream.Apply.Tests.{hundredths, pack, start, half_done, done, event}
use fl_op.Stream.Apply.Upserts.{ExecutionEvent}
use fl_op.Stream.Driver.Batches.{concat, coalesce}
use fl_op.Stream.Driver.Sessions.{Planner, Revision, StreamSession, drain, published}
use fl_op.Stream.Driver.Converging.{Converged, coalesce-Converged}

-- A plan is its number of watermarks.
abbrev pub counting : Planner hundredths
counting = record {
  Snapshot = ℕ;
  Plan = ℕ;
  build_from_sources = λ sources effective_at lineage watermarks. length sources;
  snapshot_id = λ s. [];
  asset_types = λ s. [];
  service_task_reasons = λ s. [];
  plan = λ s now objective previous. s;
}

abbrev late : ExecutionEvent hundredths
late = event (codes "e3") (codes "task.started") (codes "9") (codes "b") []

coalesce-Converged_example :
    (concat (coalesce hundredths pack (half_done ∷ done ∷ late ∷ []) 3 0)
      ≡ half_done ∷ done ∷ late ∷ [])
    × Converged hundredths pack 3 0 none
        (coalesce hundredths pack (half_done ∷ done ∷ late ∷ []) 3 0)
coalesce-Converged_example =
    coalesce-Converged hundredths pack 3 0 (half_done ∷ done ∷ late ∷ []) (omega arith)

two_batches :
    coalesce hundredths pack (half_done ∷ done ∷ late ∷ []) 3 0
    ≡ (half_done ∷ done ∷ []) ∷ (late ∷ []) ∷ []
unfolding coalesce
two_batches = refl

abbrev first_plan : StreamSession hundredths counting
first_plan = record {
  applicator = start;
  dedup_store = none;
  effective_at = 0;
  objective = [];
  previous_plan = some 1;
  previous_service_reasons = [];
  completion_trail = [];
  coverage_trail = [];
  prognosis_trail = [];
}

abbrev ids_of :
    Option (List (Revision hundredths counting) × StreamSession hundredths counting) → List Text
ids_of none = []
ids_of (some (revisions, _)) = published hundredths pack counting revisions

-- A replay makes no revision, and the ids of a batch are those that it applied.
one_each :
    ids_of (
      drain hundredths pack counting
        (λ r store. store)
        3
        (half_done ∷ done ∷ half_done ∷ late ∷ [])
        first_plan)
    ≡ codes "e1" ∷ codes "e2" ∷ codes "e3" ∷ []
unfolding published drain drain_batches drain_batch conclude apply_batch contains replan applied_ids
    absorb
one_each = refl
