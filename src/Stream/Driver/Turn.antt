-- ===== src/Stream/Driver/Turn.antt =====
-- Which ids one batch publishes, and what its session knows then: src/fl_op/stream/driver.py.
use native.Mathlib.Nat.{zero-add}
use mathlib.Core.List.{append-nil}
use fl_op.Base.{
  ℕ, ◌+◌, ◌≡◌, refl, ap, ◌∙◌, Option, Bool, true, false, ◌&&◌, ◌||◌, not, List, [], ◌∷◌, Text,
  text_eq, contains, Distinct, arith, Bool-cases, inl, inr, any, length,
}
use fl_op.Stream.Dedup.{EventDedupStore}
use fl_op.Stream.Apply.Rows.{Host, Tables}
use fl_op.Stream.Apply.Tasks.{State}
use fl_op.Stream.Apply.Upserts.{ExecutionEvent}
use fl_op.Stream.Apply.Dispatch.{in_store}
use fl_op.Stream.Driver.Batches.{count_applied, apply_batch, applied_ids, last_event}
use fl_op.Stream.Driver.Sessions.{
  published, conclude, Planner, Revision, StreamSession, OnRevision, record_completions,
  record_coverage, replan, absorb, drain_batch,
}
use fl_op.Stream.Driver.Once.{
  named_ids, known, contains-applied_ids, apply_batch_sees, applied_ids-Distinct, applied_ids_none,
}

module _ (h : Host) (t : Tables) (p : Planner h) where
  -- A callback whose store knows after a revision what it knew and, if the callback records them, the
  -- revision's ids, as long as these are good ones and there is room for as many as are to come.
  pub record Publisher : Type 1 where
    pub on_revision : OnRevision h t p
    pub Room : Option EventDedupStore → ℕ → Type 0
    pub Good : Text → Type 0
    pub leaves :
        (r : Revision h p) (store : Option EventDedupStore) (n : ℕ)
        → Distinct r.applied_event_ids
        → ((i : Text) → contains i r.applied_event_ids ≡ true → in_store h t store i ≡ false)
        → ((i : Text) → contains i r.applied_event_ids ≡ true → Good i)
        → Room store (length r.applied_event_ids + n)
        → Room (on_revision r store) n
    pub records : Bool
    pub keeps :
        (r : Revision h p) (store : Option EventDedupStore) (n : ℕ) (i : Text)
        → ((j : Text) → contains j r.applied_event_ids ≡ true → Good j)
        → Room store (length r.applied_event_ids + n)
        → in_store h t (on_revision r store) i
          ≡ (in_store h t store i || (records && contains i r.applied_event_ids))

  -- Every id that is offered is a good one.
  abbrev pub AllGood : Publisher → List Text → Type 0
  AllGood publisher offered = (i : Text) → contains i offered ≡ true → publisher.Good i

  abbrev pub session_knows : StreamSession h p → Text → Bool
  session_knows s i = known h t s.dedup_store s.applicator i

  absorb-seen :
      (previous : p.Plan) (after : State h) (s : StreamSession h p)
      → ((absorb h t p previous after s).applicator.seen_event_ids ≡ after.seen_event_ids)
        × ((absorb h t p previous after s).dedup_store ≡ s.dedup_store)
  unfolding absorb record_completions record_coverage
  absorb-seen previous after s = ground arith

  -- What a part of a drain publishes and knows, with `n` ids still to come.
  pub record Drained (publisher : Publisher) (s next : StreamSession h p) (offered ids : List Text)
      (n : ℕ) : Type 0 where
    pub exact : (i : Text) → contains i ids ≡ (contains i offered && not (session_knows s i))
    pub distinct : Distinct ids
    pub knows : (i : Text) → session_knows next i ≡ (session_knows s i || contains i ids)
    pub told :
        (i : Text)
        → in_store h t next.dedup_store i
          ≡ (in_store h t s.dedup_store i || (publisher.records && contains i ids))
    pub room : publisher.Room next.dedup_store n

  replan-parts :
      (on_revision : OnRevision h t p) (last : ExecutionEvent h) (n : ℕ) (ids : List Text)
      (previous : p.Plan) (s : StreamSession h p)
      → let (revision, next) = replan h t p on_revision last n ids previous s in
        (revision.applied_event_ids ≡ ids)
        × (next.applicator ≡ s.applicator)
        × (next.dedup_store ≡ on_revision revision s.dedup_store)
  unfolding replan
  replan-parts on_revision last n ids previous s = (refl, refl, refl)

  -- A session after its events: it has seen `ids`, and its store is still the old one.
  pub record Absorbed (s s' : StreamSession h p) (offered ids : List Text) : Type 0 where
    pub exact : (i : Text) → contains i ids ≡ (contains i offered && not (session_knows s i))
    pub distinct : Distinct ids
    pub sees :
        (i : Text)
        → contains i s'.applicator.seen_event_ids
          ≡ (contains i ids || contains i s.applicator.seen_event_ids)
    pub store : s'.dedup_store ≡ s.dedup_store

  session_knows-Absorbed :
      (s s' : StreamSession h p) (offered ids : List Text) (i : Text)
      → Absorbed s s' offered ids
      → session_knows s' i ≡ (session_knows s i || contains i ids)
  session_knows-Absorbed s s' offered ids i a = rw a.store (ground (arith, a.sees i))

  pub idle-Drained :
      (publisher : Publisher) (s s' : StreamSession h p) (offered ids : List Text) (n : ℕ)
      → Absorbed s s' offered ids
      → ids ≡ []
      → publisher.Room s.dedup_store n
      → Drained publisher s s' offered [] n
  idle-Drained publisher s s' offered ids n a empty room = record {
    exact = λ i. rw (← empty) (a.exact i);
    distinct = tt;
    knows = λ i. rw (← empty) (session_knows-Absorbed s s' offered ids i a);
    told = λ i. rw a.store (unfold contains in ground arith);
    room = rw a.store room;
  }

  revised-Drained :
      (publisher : Publisher) (s s' next : StreamSession h p) (offered ids : List Text) (n : ℕ)
      (r : Revision h p)
      → Absorbed s s' offered ids
      → r.applied_event_ids ≡ ids
      → next.applicator ≡ s'.applicator
      → next.dedup_store ≡ publisher.on_revision r s'.dedup_store
      → AllGood publisher offered
      → publisher.Room s.dedup_store (length r.applied_event_ids + n)
      → Drained publisher s next offered r.applied_event_ids n
  revised-Drained publisher s s' next offered ids n r a same state store good room =
      let all_good : AllGood publisher r.applied_event_ids =
        λ i m. good i (ground (arith, a.exact i, ap (contains i) same, m)) in
      let kept = λ (i : Text). publisher.keeps r s.dedup_store n i all_good room in
      record {
        exact = λ i. rw same (a.exact i);
        distinct = rw same a.distinct;
        knows = λ i.
            rw (state, store, a.store) (ground (arith, kept i, a.sees i, ap (contains i) same));
        told = λ i. rw (store, a.store) (kept i);
        room =
            rw (store, a.store)
              (publisher.leaves r s.dedup_store n (rw same a.distinct)
                (λ i m. ground (arith, a.exact i, ap (contains i) same, m)) all_good room);
      }

  conclude-Drained :
      (publisher : Publisher) (previous : p.Plan) (last : ExecutionEvent h) (applied : List Bool)
      (s s' : StreamSession h p) (offered ids : List Text) (n : ℕ)
      → Absorbed s s' offered ids
      → (any (λ b. b) applied ≡ false → ids ≡ [])
      → AllGood publisher offered
      → let (made, next) = conclude h t p publisher.on_revision previous last ids applied s' in
        publisher.Room s.dedup_store (length (published h t p made) + n)
        → Drained publisher s next offered (published h t p made) n
  unfolding conclude published
  conclude-Drained publisher previous last applied s s' offered ids n a none_idle good room =
      let (same, state, store) =
        replan-parts publisher.on_revision last (count_applied h t applied) ids previous s' in
      elim (Bool-cases (any (λ b. b) applied)) [
        | inl some_applied ↦ rw some_applied (
            rw append-nil (
              revised-Drained publisher s s' _ offered ids n _ a same state store good
                (rw (some_applied, append-nil) at room)))
        | inr idle ↦ rw idle (
            idle-Drained publisher s s' offered ids n a (none_idle idle)
              (rw (idle, zero-add) at room))
      ]

  pub drain_batch-Drained :
      (publisher : Publisher) (previous : p.Plan) (batch : List (ExecutionEvent h))
      (s : StreamSession h p) (n : ℕ)
      → AllGood publisher (named_ids h t batch)
      → let (made, next) = drain_batch h t p publisher.on_revision previous batch s in
        publisher.Room s.dedup_store (length (published h t p made) + n)
        → Drained publisher s next (named_ids h t batch) (published h t p made) n
  unfolding drain_batch published
  drain_batch-Drained publisher previous [] s n good room =
      let (seen, store) = absorb-seen previous s.applicator s in
      idle-Drained publisher s (absorb h t p previous s.applicator s) (named_ids h t []) [] n
        (record {
          exact = λ i. unfold named_ids contains in refl;
          distinct = tt;
          sees = λ i. unfold contains in ap (contains i) seen;
          store = store;
        })
        refl (rw zero-add at room)
  drain_batch-Drained publisher previous (event ∷ events) s n good room =
      let batch = event ∷ events in
      let run = apply_batch h t s.dedup_store batch s.applicator in
      let (seen, store) = absorb-seen previous run.1 s in
      conclude-Drained publisher previous (last_event h t event events) run.0 s
        (absorb h t p previous run.1 s) (named_ids h t batch) (applied_ids h t batch run.0) n
        (record {
          exact = contains-applied_ids h t s.dedup_store batch s.applicator;
          distinct = applied_ids-Distinct h t s.dedup_store batch s.applicator;
          sees =
              λ i. ap (contains i) seen ∙ apply_batch_sees h t s.dedup_store batch s.applicator i;
          store = store;
        })
        (applied_ids_none h t batch run.0) good room
