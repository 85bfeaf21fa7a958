-- ===== src/Stream/Driver/Started.antt =====
-- That a started session stays one, and its drains return: src/fl_op/stream/driver.py.

use fl_op.Base.{
  ℕ, ◌≡◌, refl, some, Bool, List, [], ◌∷◌, Text, text_eq, arith, Bool-cases, inl, inr, any,
}
use fl_op.Stream.Apply.Rows.{Host, Tables}
use fl_op.Stream.Apply.Tasks.{State}
use fl_op.Stream.Apply.Upserts.{ExecutionEvent}
use fl_op.Stream.Driver.Batches.{coalesce}
use fl_op.Stream.Driver.Sessions.{
  drain, drain, conclude, Planner, StreamSession, OnRevision, record_completions, record_coverage,
  replan, absorb, drain_batch, drain_batches,
}

module _ (h : Host) (t : Tables) (p : Planner h) where
  abbrev pub IsStarted : StreamSession h p → Type 0
  IsStarted s = (plan : p.Plan) × (s.previous_plan ≡ some plan)

  absorb-IsStarted :
      (previous : p.Plan) (after : State h) (s : StreamSession h p)
      → IsStarted s
      → IsStarted (absorb h t p previous after s)
  unfolding absorb record_completions record_coverage
  absorb-IsStarted previous after s (plan, e) = (plan, ground (arith, e))

  conclude-IsStarted :
      (on_revision : OnRevision h t p) (previous : p.Plan) (last : ExecutionEvent h)
      (ids : List Text) (applied : List Bool) (s : StreamSession h p)
      → IsStarted s
      → IsStarted (conclude h t p on_revision previous last ids applied s).1
  unfolding conclude replan
  conclude-IsStarted on_revision previous last ids applied s ready =
      elim (Bool-cases (any (λ b. b) applied)) [
        | inl some_applied ↦ rw some_applied (_, refl)
        | inr idle ↦ rw idle ready
      ]

  drain_batch-IsStarted :
      (on_revision : OnRevision h t p) (previous : p.Plan) (batch : List (ExecutionEvent h))
      (s : StreamSession h p)
      → IsStarted s
      → IsStarted (drain_batch h t p on_revision previous batch s).1
  unfolding drain_batch
  drain_batch-IsStarted on_revision previous [] s ready = absorb-IsStarted previous _ s ready
  drain_batch-IsStarted on_revision previous (event ∷ events) s ready =
      conclude-IsStarted on_revision previous _ _ _ _ (absorb-IsStarted previous _ s ready)

  pub drain_batches-IsStarted :
      (on_revision : OnRevision h t p) (batches : List (List (ExecutionEvent h)))
      (previous : p.Plan) (s : StreamSession h p)
      → IsStarted s
      → IsStarted (drain_batches h t p on_revision batches previous s).1
  unfolding drain_batches
  drain_batches-IsStarted on_revision [] previous s ready = ready
  drain_batches-IsStarted on_revision (batch ∷ batches) previous s ready =
      drain_batches-IsStarted on_revision batches _ _
        (drain_batch-IsStarted on_revision previous batch s ready)

  -- A drain of a started session returns.
  pub drain_returns :
      (on_revision : OnRevision h t p) (window : ℕ) (events : List (ExecutionEvent h))
      (s : StreamSession h p) (ready : IsStarted s)
      → drain h t p on_revision window events s
        ≡ some
            (drain_batches h t p on_revision (coalesce h t events window s.effective_at) ready.0 s)
  unfolding drain
  drain_returns on_revision window events s (plan, e) = rw e refl
