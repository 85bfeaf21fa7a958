-- ===== src/Stream/Driver/Published.antt =====
-- Which ids the revisions of a drain publish: src/fl_op/stream/driver.py.
use native.Mathlib.Nat.{zero-add, add_assoc}
use mathlib.Core.List.{append_assoc}
use fl_op.Base.{
  or_true, or_else, ℕ, ◌+◌, ◌≡◌, refl, sym, ap, ◌∙◌, List, [], ◌∷◌, ◌++◌, Text, text_eq, contains,
  contains-append, Distinct-append, arith, length, length-append,
}
use fl_op.Stream.Apply.Rows.{Host, Tables}
use fl_op.Stream.Apply.Upserts.{ExecutionEvent}
use fl_op.Stream.Driver.Batches.{coalesce, concat}
use fl_op.Stream.Driver.Sessions.{
  published, Planner, Revision, StreamSession, drain_batch, drain_batches,
}
use fl_op.Stream.Driver.Once.{named_ids}
use fl_op.Stream.Driver.Converging.{concat-coalesce}
use fl_op.Stream.Driver.Turn.{Publisher, AllGood, Drained, idle-Drained, drain_batch-Drained}

module _ (h : Host) (t : Tables) (p : Planner h) where
  published-append :
      (made others : List (Revision h p))
      → published h t p (made ++ others) ≡ published h t p made ++ published h t p others
  unfolding published
  published-append [] others = refl
  published-append (r ∷ made) others =
      ap (λ ids. r.applied_event_ids ++ ids) (published-append made others)
      ∙ sym (append_assoc r.applied_event_ids (published h t p made) (published h t p others))

  named_ids-append :
      (xs ys : List (ExecutionEvent h))
      → named_ids h t (xs ++ ys) ≡ named_ids h t xs ++ named_ids h t ys
  unfolding named_ids
  named_ids-append [] ys = refl
  named_ids-append (x ∷ xs) ys = ground (arith, named_ids-append xs ys)

  -- Two parts of a drain, one after the other.
  Drained-then :
      (publisher : Publisher h t p) (s middle final : StreamSession h p)
      (offered ids offered' ids' : List Text) (m n : ℕ)
      → Drained h t p publisher s middle offered ids m
      → Drained h t p publisher middle final offered' ids' n
      → Drained h t p publisher s final (offered ++ offered') (ids ++ ids') n
  Drained-then publisher s middle final offered ids offered' ids' m n a b = record {
    exact = λ i.
        rw (contains-append, contains-append) (ground (arith, a.exact i, b.exact i, a.knows i));
    distinct =
        Distinct-append ids ids' a.distinct b.distinct
          (λ i m. ground (arith, b.exact i, a.knows i, m));
    knows = λ i. rw contains-append (ground (arith, a.knows i, b.knows i));
    told = λ i. rw contains-append (ground (arith, a.told i, b.told i));
    room = b.room;
  }

  -- Where nothing is offered and nothing happens.
  pub none-Drained :
      (publisher : Publisher h t p) (s : StreamSession h p) (n : ℕ)
      → publisher.Room s.dedup_store (length (published h t p []) + n)
      → Drained h t p publisher s s (named_ids h t []) (published h t p []) n
  unfolding published
  none-Drained publisher s n room =
      idle-Drained h t p publisher s s (named_ids h t []) [] n
        (record {
          exact = λ i. unfold named_ids contains in refl;
          distinct = tt;
          sees = λ i. unfold contains in refl;
          store = refl;
        })
        refl (rw zero-add at room)

  -- A part of a drain over some events, whatever it publishes, as long as there is room for it.
  abbrev pub Part :
      Publisher h t p
      → List (ExecutionEvent h)
      → List (Revision h p)
      → StreamSession h p
      → StreamSession h p
      → Type 0
  Part publisher events made s next =
      (n : ℕ)
      → AllGood h t p publisher (named_ids h t events)
      → publisher.Room s.dedup_store (length (published h t p made) + n)
      → Drained h t p publisher s next (named_ids h t events) (published h t p made) n

  pub Part-then :
      (publisher : Publisher h t p) (s middle final : StreamSession h p)
      (xs ys : List (ExecutionEvent h)) (made others : List (Revision h p))
      → Part publisher xs made s middle
      → Part publisher ys others middle final
      → Part publisher (xs ++ ys) (made ++ others) s final
  Part-then publisher s middle final xs ys made others a b n good room =
      let m = length (published h t p others) + n in
      let first =
        a m (λ i o. good i (rw (named_ids-append, contains-append, o) refl))
          (rw (published-append, length-append, add_assoc) at room) in
      rw (published-append, named_ids-append)
        (Drained-then publisher s middle final _ _ _ _ m n first
          (b n (λ i o. good i (rw (named_ids-append, contains-append, o) (or_true _))) first.room))

  pub drain_batches-Drained :
      (publisher : Publisher h t p) (batches : List (List (ExecutionEvent h))) (previous : p.Plan)
      (s : StreamSession h p)
      → let (made, final) = drain_batches h t p publisher.on_revision batches previous s in
        Part publisher (concat batches) made s final
  unfolding drain_batches concat
  drain_batches-Drained publisher [] previous s n good room = none-Drained publisher s n room
  drain_batches-Drained publisher (batch ∷ batches) previous s n good room =
      let (made, next) = drain_batch h t p publisher.on_revision previous batch s in
      let previous' = or_else next.previous_plan previous in
      let (others, final) = drain_batches h t p publisher.on_revision batches previous' next in
      Part-then publisher s next final batch (concat batches) made others
        (λ m g r. drain_batch-Drained h t p publisher previous batch s m g r)
        (drain_batches-Drained publisher batches previous' next) n good room

  -- Its revisions publish exactly the ids that the events bring and that the session did not know,
  -- each once; the session knows them afterwards.
  pub drain-Drained :
      (publisher : Publisher h t p) (window : ℕ) (events : List (ExecutionEvent h))
      (previous : p.Plan) (s : StreamSession h p)
      → let (made, final) =
          drain_batches h t p publisher.on_revision
            (coalesce h t events window s.effective_at)
            previous
            s in
        Part publisher events made s final
  drain-Drained publisher window events previous s n good room =
      let all = concat-coalesce h t window s.effective_at events in
      let drained =
        drain_batches-Drained publisher (coalesce h t events window s.effective_at) previous s n
          (rw all good) room in
      rw all at drained
