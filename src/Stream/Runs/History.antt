-- ===== src/Stream/Runs/History.antt =====
-- Runs, crashes and redeliveries over one store file: src/fl_op/planning/plans.py with
-- src/fl_op/stream/dedup.py.
use mathlib.Core.List.{append-nil}
use fl_op.Base.{
  or_true, ◌-◌, ℕ, ◌+◌, ◌≤◌, ◌≡◌, refl, Option, none, some, true, ◌||◌, List, [], ◌++◌, Text,
  text_eq, contains, contains-append, Distinct, Distinct-append, arith, length, length-append,
}
use fl_op.Stream.Dedup.{EventDedupStore, open_store, store_contains, written}
use fl_op.Stream.Dedup.Lines.{IsClean}
use fl_op.Stream.Dedup.Durable.{empty-IsValid, IsValid-reopen, IsValid, ids-reopen, reopen_contains}
use fl_op.Stream.Apply.Rows.{Host, Tables}
use fl_op.Stream.Apply.Upserts.{ExecutionEvent}
use fl_op.Stream.Driver.Batches.{concat}
use fl_op.Stream.Driver.Sessions.{Planner, Revision, published}
use fl_op.Stream.Driver.Once.{named_ids}
use fl_op.Stream.Runs.{Settings, record_ids, run_plan_rolling, run_plan_watch}
use fl_op.Stream.Runs.Publish.{HasRoom, record_ids_keeps, record_ids_leaves}
use fl_op.Stream.Runs.Returns.{
  same_result, PublishesNew, run_plan_rolling-PublishesNew, run_plan_watch-PublishesNew,
}

-- What lasts between processes: the store's file, and the ids of the revisions that were written.
pub record World : Type 0 where
  pub file : Option Text
  pub written_ids : List Text

-- Every id that a list of ids offers is one that a line of the file can hold.
abbrev pub Clean : List Text → Type 0
Clean ids = (i : Text) → contains i ids ≡ true → IsClean i

module _ (h : Host) (t : Tables) (p : Planner h) (c : Settings h) where
  abbrev after_run : World → List (Revision h p) → EventDedupStore → World
  after_run w revisions store = record {
    file = store.file;
    written_ids = w.written_ids ++ published h t p revisions;
  }

  -- A process opens the store on the file and runs to its end, or it crashes before it writes a
  -- revision. Which events it gets is the broker's choice: any of them may come again.
  pub data Process (w : World) : List Text → World → Type 0 where
    crashed : Process w [] w
    rolled :
        (events : List (ExecutionEvent h)) (revisions : List (Revision h p))
        (store : EventDedupStore)
        → run_plan_rolling h t p c events (some (open_store w.file)) ≡ some (revisions, some store)
        → Process w (named_ids h t events) (after_run w revisions store)
    watched :
        (cycles : List (List (ExecutionEvent h))) (revisions : List (Revision h p))
        (store : EventDedupStore)
        → run_plan_watch h t p c cycles (some (open_store w.file)) ≡ some (revisions, some store)
        → Process w (named_ids h t (concat cycles)) (after_run w revisions store)

  -- Any number of processes from no file at all, with the ids that they got events of.
  pub data History : List Text → World → Type 0 where
    fresh : History [] (record { file = none; written_ids = [] })
    next :
        {offered more : List Text} {w w' : World}
        → History offered w
        → Process w more w'
        → History (offered ++ more) w'

  -- The file holds what was written.
  pub record Kept (w : World) (offered : List Text) : Type 0 where
    pub valid : IsValid (open_store w.file)
    pub few : length (open_store w.file).ids ≤ length w.written_ids
    pub distinct : Distinct w.written_ids
    pub knows : (i : Text) → store_contains (open_store w.file) i ≡ contains i w.written_ids
    pub all : (i : Text) → contains i w.written_ids ≡ contains i offered

  empty-Kept : Kept (record { file = none; written_ids = [] }) []
  unfolding open_store written contains store_contains
  empty-Kept = record {
    valid = empty-IsValid;
    few = omega arith;
    distinct = tt;
    knows = λ i. refl;
    all = λ i. refl;
  }

  -- What a run has to leave, over a world with what it has to be.
  run-Kept :
      (w : World) (offered : List Text) (events : List (ExecutionEvent h))
      (revisions : List (Revision h p)) (store : EventDedupStore) (n : ℕ)
      → Kept w offered
      → PublishesNew h t p c (some (open_store w.file)) events revisions
      → HasRoom h t p c (some store) n
      → c.max_ids ≤ length (after_run w revisions store).written_ids + n
      → ((i : Text)
          → store_contains store i
            ≡ (store_contains (open_store w.file) i || contains i (published h t p revisions)))
      → Kept (after_run w revisions store) (offered ++ named_ids h t events)
  run-Kept w offered events revisions store n k new room full told = record {
    valid = IsValid-reopen store room.1;
    few = rw (ids-reopen store room.1) (omega arith);
    distinct =
        Distinct-append w.written_ids (published h t p revisions) k.distinct new.0
          (λ i m. ground (arith, new.1 i, k.knows i, m));
    knows = λ i.
        rw (reopen_contains store i room.1)
          (rw contains-append (ground (arith, told i, k.knows i)));
    all = λ i. rw (contains-append, contains-append) (ground (arith, new.1 i, k.knows i, k.all i));
  }

  -- The room that is left over when a run has written its ids.
  room_before :
      (w : World) (offered ids : List Text) (m : ℕ)
      → Kept w offered
      → m ≡ length (w.written_ids ++ ids)
      → m ≤ c.max_ids
      → HasRoom h t p c (some (open_store w.file)) (length ids + (c.max_ids - m))
  room_before w offered ids m k e small =
      (omega (arith, k.few, length-append w.written_ids ids, e), k.valid)

  published-Clean :
      (w : World) (events : List (ExecutionEvent h)) (revisions : List (Revision h p))
      → PublishesNew h t p c (some (open_store w.file)) events revisions
      → Clean (named_ids h t events)
      → Clean (published h t p revisions)
  published-Clean w events revisions new clean i m = clean i (ground (arith, new.1 i, m))

  Process-Kept :
      {w w' : World} {more : List Text} (offered : List Text)
      → Kept w offered
      → Clean more
      → length w'.written_ids ≤ c.max_ids
      → Process w more w'
      → Kept w' (offered ++ more)
  Process-Kept offered k clean small crashed = rw append-nil k
  Process-Kept {w} {w'} offered k clean small (rolled events revisions store e) =
      let (revisions', e', new') =
        run_plan_rolling-PublishesNew h t p c events (some (open_store w.file)) in
      let (same, recorded) = same_result h t p c revisions revisions' (some store) _ _ e e' in
      let new : PublishesNew h t p c (some (open_store w.file)) events revisions =
        rw same at new' in
      let ids = published h t p revisions in
      let store_is : record_ids h t p c ids (some (open_store w.file)) ≡ some store =
        rw same at recorded in
      let n = c.max_ids - length w'.written_ids in
      let ids_clean = published-Clean w events revisions new clean in
      let before = room_before w offered ids _ k refl small in
      let after = record_ids_leaves h t p c ids (some (open_store w.file)) n ids_clean before in
      let told = λ (i : Text).
        record_ids_keeps h t p c ids (some (open_store w.file)) n i ids_clean before in
      run-Kept w offered events revisions store n k new (rw store_is at after) (omega arith)
        (λ i. rw store_is at (told i))
  Process-Kept {w} {w'} offered k clean small (watched cycles revisions store e) =
      let n = c.max_ids - length w'.written_ids in
      let before = room_before w offered (published h t p revisions) _ k refl small in
      let (new, room, told) =
        run_plan_watch-PublishesNew h t p c cycles (some (open_store w.file)) (some store) revisions
          n e clean before in
      run-Kept w offered (concat cycles) revisions store n k new room (omega arith) told

  grows :
      {w w' : World} {more : List Text}
      → Process w more w'
      → length w.written_ids ≤ length w'.written_ids
  grows crashed = omega arith
  grows {w} (rolled events revisions store e) =
      omega (arith, length-append w.written_ids (published h t p revisions))
  grows {w} (watched cycles revisions store e) =
      omega (arith, length-append w.written_ids (published h t p revisions))

  History-Kept :
      {offered : List Text} {w : World}
      → History offered w
      → Clean offered
      → length w.written_ids ≤ c.max_ids
      → Kept w offered
  History-Kept fresh clean small = empty-Kept
  History-Kept (next {offered} {more} past process) clean small =
      Process-Kept offered
        (History-Kept past (λ i m. clean i (rw (contains-append, m) refl))
          (omega (arith, grows process)))
        (λ i m. clean i (rw (contains-append, m) (or_true _))) small process

  -- Effectively once. Rolling runs and watchers take turns on one store, any of them may crash before
  -- it writes a revision, and the broker may deliver every event again to each. As long as the store's
  -- bound is not reached and the ids are ones that a line can hold: over all revisions that were ever
  -- written no event id is listed twice, and the ids that are listed are exactly those of the events
  -- that a completed process got.
  pub effectively_once :
      (offered : List Text) (w : World)
      → History offered w
      → Clean offered
      → length w.written_ids ≤ c.max_ids
      → Distinct w.written_ids × ((i : Text) → contains i w.written_ids ≡ contains i offered)
  effectively_once offered w past clean small =
      let k = History-Kept past clean small in (k.distinct, k.all)
