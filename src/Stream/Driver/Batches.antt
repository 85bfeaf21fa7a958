-- ===== src/Stream/Driver/Batches.antt =====
-- Batches of events: `_event_now`, `_coalesce` and the calls of `apply` in `drain` of src/fl_op/stream/driver.py. Instants and the
-- window are natural numbers of one unit, so a window below zero is left out.
use fl_op.Base.{
  Option, not, ◌&&◌, Text, suc, ℕ, ◌+◌, ◌-◌, Bool, List, [], ◌∷◌, ◌++◌, map, or_else, if◌then◌else◌,
  leb, eqb,
}
use fl_op.Base.Strip.{is_empty}
use fl_op.Stream.Apply.Rows.{Host, Tables}
use fl_op.Stream.Dedup.{EventDedupStore}
use fl_op.Stream.Apply.Tasks.{State}
use fl_op.Stream.Apply.Upserts.{ExecutionEvent, parse_observed}
use fl_op.Stream.Apply.Dispatch.{apply}

-- The batches one after the other.
unfoldable pub concat {ℓ} : {A : Type ℓ} → List (List A) → List A
concat [] = []
concat (xs ∷ xss) = xs ++ concat xss

module _ (h : Host) (t : Tables) where
  -- `batch[-1]`, where the batch is `event ∷ events`
  unfoldable pub last_event : ExecutionEvent h → List (ExecutionEvent h) → ExecutionEvent h
  last_event event [] = event
  last_event event (next ∷ events) = last_event next events

  -- `_event_now`
  unfoldable pub event_now : ExecutionEvent h → ℕ → ℕ
  unfolding parse_observed
  event_now event fallback = or_else (parse_observed h t event) fallback

  -- `abs(gap) <= window_s`
  unfoldable pub converges : ℕ → ℕ → ExecutionEvent h → ExecutionEvent h → Bool
  unfolding event_now
  converges window fallback last event =
      leb
        ((event_now event fallback - event_now last fallback)
          + (event_now last fallback - event_now event fallback))
        window

  -- The loop of `_coalesce`: `batch` is `batches[-1]`, whose last event is `last`.
  unfoldable pub grow :
      ℕ
      → ℕ
      → List (ExecutionEvent h)
      → ExecutionEvent h
      → List (ExecutionEvent h)
      → List (List (ExecutionEvent h))
  unfolding converges
  grow window fallback batch last [] = batch ∷ []
  grow window fallback batch last (event ∷ events) =
      let longer = grow window fallback (batch ++ event ∷ []) event events in
      let closed = batch ∷ grow window fallback (event ∷ []) event events in
      if converges window fallback last event then longer else closed

  -- `_coalesce`
  unfoldable pub coalesce : List (ExecutionEvent h) → ℕ → ℕ → List (List (ExecutionEvent h))
  unfolding grow
  coalesce [] window fallback = []
  coalesce (event ∷ events) window fallback =
      let grown = grow window fallback (event ∷ []) event events in
      if eqb window 0 then map (λ e. e ∷ []) (event ∷ events) else grown

  -- `[applicator.apply(working, event) for event in batch]`
  unfoldable pub apply_batch :
      Option EventDedupStore → List (ExecutionEvent h) → State h → List Bool × State h
  unfolding apply
  apply_batch store [] st = ([], st)
  apply_batch store (event ∷ events) st =
      let (applied, after) = apply h t store event st in
      let (others, final) = apply_batch store events after in (applied ∷ others, final)

  -- The ids of the events that were applied and have one.
  unfoldable pub applied_ids : List (ExecutionEvent h) → List Bool → List Text
  applied_ids [] applied = []
  applied_ids (event ∷ events) [] = []
  applied_ids (event ∷ events) (was_applied ∷ applied) =
      let others = applied_ids events applied in
      if was_applied && not (is_empty event.event_id) then event.event_id ∷ others else others

  -- `sum(applied)`
  unfoldable pub count_applied : List Bool → ℕ
  count_applied [] = 0
  count_applied (applied ∷ others) =
      if applied then suc (count_applied others) else count_applied others
