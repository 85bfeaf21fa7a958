-- ===== src/Stream/Driver/Converging.antt =====
-- What the batches of `_coalesce` are: src/fl_op/stream/driver.py.
use mathlib.Core.List.{append_assoc}
use fl_op.Base.{
  eqb, map, ℕ, ◌<◌, ◌≡◌, refl, ap, ◌∙◌, Option, none, some, true, false, List, [], ◌∷◌, ◌++◌, arith,
  Bool-cases, inl, inr,
}
use fl_op.Stream.Apply.Rows.{Host, Tables}
use fl_op.Stream.Apply.Upserts.{ExecutionEvent}
use fl_op.Stream.Driver.Batches.{concat, last_event, converges, grow, coalesce}

module _ (h : Host) (t : Tables) (window fallback : ℕ) where
  -- Each event converges with the one before it.
  abbrev pub Chained : ExecutionEvent h → List (ExecutionEvent h) → Type 0
  Chained event [] = Unit
  Chained event (next ∷ events) =
      (converges h t window fallback event next ≡ true) × Chained next events

  abbrev Apart : Option (ExecutionEvent h) → ExecutionEvent h → Type 0
  Apart none event = Unit
  Apart (some before) event = converges h t window fallback before event ≡ false

  -- No batch is empty, each is chained, and its first event does not converge with the last one of
  -- the batch before.
  abbrev pub Converged : Option (ExecutionEvent h) → List (List (ExecutionEvent h)) → Type 0
  Converged before [] = Unit
  Converged before ([] ∷ batches) = ⊥
  Converged before ((event ∷ events) ∷ batches) =
      Apart before event
      × Chained event events
      × Converged (some (last_event h t event events)) batches

  last_event-append :
      (event : ExecutionEvent h) (events : List (ExecutionEvent h)) (next : ExecutionEvent h)
      → last_event h t event (events ++ next ∷ []) ≡ next
  unfolding last_event
  last_event-append event [] next = refl
  last_event-append event (e ∷ events) next = last_event-append e events next

  Chained-snoc :
      (event : ExecutionEvent h) (events : List (ExecutionEvent h)) (next : ExecutionEvent h)
      → Chained event events
      → converges h t window fallback (last_event h t event events) next ≡ true
      → Chained event (events ++ next ∷ [])
  unfolding last_event
  Chained-snoc event [] next c near = (near, tt)
  Chained-snoc event (e ∷ events) next c near = (c.0, Chained-snoc e events next c.1 near)

  grow-Converged :
      (before : Option (ExecutionEvent h)) (event : ExecutionEvent h)
      (batch : List (ExecutionEvent h)) (last : ExecutionEvent h) (events : List (ExecutionEvent h))
      → last_event h t event batch ≡ last
      → Apart before event
      → Chained event batch
      → Converged before (grow h t window fallback (event ∷ batch) last events)
  unfolding grow
  grow-Converged before event batch last [] e apart c = (apart, c, tt)
  grow-Converged before event batch last (next ∷ events) e apart c =
      elim (Bool-cases (converges h t window fallback last next)) [
        | inl near ↦ rw near (
            grow-Converged before event (batch ++ next ∷ []) next events
              (last_event-append event batch next) apart
              (Chained-snoc event batch next c (rw e near)))
        | inr far ↦ rw far (
          apart,
          c,
          grow-Converged (some (last_event h t event batch)) next [] next events
              (unfold last_event in refl) (rw e far) tt,
        )
      ]

  concat-grow :
      (batch : List (ExecutionEvent h)) (last : ExecutionEvent h) (events : List (ExecutionEvent h))
      → concat (grow h t window fallback batch last events) ≡ batch ++ events
  unfolding grow concat
  concat-grow batch last [] = refl
  concat-grow batch last (next ∷ events) =
      elim (Bool-cases (converges h t window fallback last next)) [
        | inl near ↦
            rw near
              (concat-grow (batch ++ next ∷ []) next events ∙ append_assoc batch (next ∷ []) events)
        | inr far ↦ rw far (ap (λ r. batch ++ r) (concat-grow (next ∷ []) next events))
      ]

  concat-singles : (events : List (ExecutionEvent h)) → concat (map (λ e. e ∷ []) events) ≡ events
  unfolding concat
  concat-singles [] = refl
  concat-singles (event ∷ events) = ap (λ r. event ∷ r) (concat-singles events)

  -- The batches hold the events in their order, whatever the window.
  pub concat-coalesce :
      (events : List (ExecutionEvent h)) → concat (coalesce h t events window fallback) ≡ events
  unfolding coalesce
  concat-coalesce [] = unfold concat in refl
  concat-coalesce (event ∷ events) = elim (Bool-cases (eqb window 0)) [
    | inl closed ↦ rw closed (concat-singles (event ∷ events))
    | inr opened ↦ rw opened (concat-grow (event ∷ []) event events)
  ]

  -- With a window above zero the batches are the longest runs of events each of which lies within the
  -- window of the one before: together they are the events in their order, none is empty, inside a
  -- batch each event converges with the one before it, and no batch starts with an event that
  -- converges with the last one of the batch before.
  pub coalesce-Converged :
      (events : List (ExecutionEvent h))
      → 0 < window
      → (concat (coalesce h t events window fallback) ≡ events)
        × Converged none (coalesce h t events window fallback)
  unfolding coalesce
  coalesce-Converged [] pos = (unfold concat in refl, tt)
  coalesce-Converged (event ∷ events) pos =
      let opened : eqb window 0 ≡ false = ground arith in
      rw opened (
        concat-grow (event ∷ []) event events,
        grow-Converged none event [] event events (unfold last_event in refl) tt tt,
      )
