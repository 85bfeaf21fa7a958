-- ===== src/Stream/Driver/Once.antt =====
-- Which ids a drain applies: src/fl_op/stream/driver.py over src/fl_op/stream/apply.py.
use fl_op.Base.{
  ◌≡◌, refl, ap, Option, Bool, true, false, ◌&&◌, ◌||◌, not, List, [], ◌∷◌, Text, text_eq, contains,
  Distinct, arith, Bool-cases, inl, inr, any, if◌then◌else◌, contains_head,
}
use fl_op.Base.Strip.{is_empty}
use fl_op.Stream.Dedup.{EventDedupStore}
use fl_op.Stream.Apply.Rows.{Host, Tables}
use fl_op.Stream.Apply.Tasks.{State}
use fl_op.Stream.Apply.Upserts.{ExecutionEvent}
use fl_op.Stream.Apply.Dispatch.{apply, in_store, is_replay, note_event, event_type_of}
use fl_op.Stream.Apply.Replay.{run_handler-seen}
use fl_op.Stream.Driver.Batches.{apply_batch, applied_ids}

module _ (h : Host) (t : Tables) where
  -- The ids that events bring.
  unfoldable pub named_ids : List (ExecutionEvent h) → List Text
  named_ids [] = []
  named_ids (event ∷ events) =
      let others = named_ids events in
      if is_empty event.event_id then others else event.event_id ∷ others

  abbrev pub known : Option EventDedupStore → State h → Text → Bool
  known store st i = contains i st.seen_event_ids || in_store h t store i

  -- One event: whether it is applied, and what is seen after it.
  apply_decides :
      (store : Option EventDedupStore) (event : ExecutionEvent h) (st : State h)
      → (apply h t store event st).0
        ≡ not (not (is_empty event.event_id) && known store st event.event_id)
  unfolding apply is_replay
  apply_decides store event st = ground arith

  apply_sees :
      (store : Option EventDedupStore) (event : ExecutionEvent h) (st : State h) (i : Text)
      → contains i (apply h t store event st).1.seen_event_ids ≡ (
          ((apply h t store event st).0
            && not (is_empty event.event_id)
            && contains i (event.event_id ∷ []))
          || contains i st.seen_event_ids)
  unfolding apply note_event contains
  apply_sees store event st i =
      let Ran =
        run_handler-seen h t (event_type_of event.event_type) event (note_event h t event st) in
      elim (Bool-cases (is_replay h t store event st)) [
        | inl old ↦ rw old refl
        | inr new ↦ rw new (
            rw Ran (elim (Bool-cases (is_empty event.event_id)) [
              | inl anonymous ↦ rw anonymous refl
              | inr named ↦ rw named (ground arith)
            ]))
      ]

  -- The first id of a batch and the rest, over Booleans.
  first_or_later :
      (id i : Text) (applied empty known_id seen stored later_seen : Bool)
      (later others : List Text)
      → (id ≡ i → known_id ≡ (seen || stored))
      → applied ≡ not (not empty && known_id)
      → later_seen ≡ ((applied && not empty && contains i (id ∷ [])) || seen)
      → contains i later ≡ (contains i others && not (later_seen || stored))
      → contains i (if applied && not empty then id ∷ later else later)
        ≡ (contains i (if empty then others else id ∷ others) && not (seen || stored))
  unfolding contains
  first_or_later id i applied true known_id seen stored later_seen later others k a s l =
      ground arith
  first_or_later id i applied false true seen stored later_seen later others k a s l =
      ground (arith, text_eq.agrees_iff id i)
  first_or_later id i applied false false seen stored later_seen later others k a s l =
      ground (arith, text_eq.agrees_iff id i)

  -- A batch applies exactly the ids that it brings and that are not known.
  pub contains-applied_ids :
      (store : Option EventDedupStore) (events : List (ExecutionEvent h)) (st : State h) (i : Text)
      → contains i (applied_ids h t events (apply_batch h t store events st).0)
        ≡ (contains i (named_ids events) && not (known store st i))
  unfolding apply_batch applied_ids named_ids
  contains-applied_ids store [] st i = unfold contains in refl
  contains-applied_ids store (event ∷ events) st i =
      first_or_later event.event_id i _ _ _ (contains i st.seen_event_ids) (in_store h t store i) _
        _ _ (λ e. ap (known store st) e) (apply_decides store event st)
        (apply_sees store event st i)
        (contains-applied_ids store events (apply h t store event st).1 i)

  seen_before_or_now :
      (id i : Text) (applied empty seen now final : Bool) (later : List Text)
      → now ≡ ((applied && not empty && contains i (id ∷ [])) || seen)
      → final ≡ (contains i later || now)
      → final ≡ (contains i (if applied && not empty then id ∷ later else later) || seen)
  unfolding contains
  seen_before_or_now id i applied empty seen now final later s f = ground arith

  pub apply_batch_sees :
      (store : Option EventDedupStore) (events : List (ExecutionEvent h)) (st : State h) (i : Text)
      → contains i (apply_batch h t store events st).1.seen_event_ids ≡ (
          contains i (applied_ids h t events (apply_batch h t store events st).0)
          || contains i st.seen_event_ids)
  unfolding apply_batch applied_ids
  apply_batch_sees store [] st i = unfold contains in refl
  apply_batch_sees store (event ∷ events) st i =
      seen_before_or_now event.event_id i _ _ (contains i st.seen_event_ids) _ _ _
        (apply_sees store event st i) (apply_batch_sees store events (apply h t store event st).1 i)

  pub applied_ids-Distinct :
      (store : Option EventDedupStore) (events : List (ExecutionEvent h)) (st : State h)
      → Distinct (applied_ids h t events (apply_batch h t store events st).0)
  unfolding apply_batch applied_ids
  applied_ids-Distinct store [] st = tt
  applied_ids-Distinct store (event ∷ events) st =
      let after = (apply h t store event st).1 in
      let sees = apply_sees store event st event.event_id in
      let later = contains-applied_ids store events after event.event_id in
      let rest = applied_ids-Distinct store events after in
      elim (Bool-cases ((apply h t store event st).0 && not (is_empty event.event_id))) [
        | inl kept ↦ rw kept (ground (arith, sees, later, contains_head event.event_id []), rest)
        | inr dropped ↦ rw dropped rest
      ]

  -- Where nothing is applied, no id is.
  pub applied_ids_none :
      (events : List (ExecutionEvent h)) (applied : List Bool)
      → any (λ b. b) applied ≡ false
      → applied_ids h t events applied ≡ []
  unfolding applied_ids
  applied_ids_none [] applied idle = refl
  applied_ids_none (event ∷ events) [] idle = refl
  applied_ids_none (event ∷ events) (a ∷ applied) idle =
      ground (arith, applied_ids_none events applied)
