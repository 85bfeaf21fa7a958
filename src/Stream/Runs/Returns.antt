-- ===== src/Stream/Runs/Returns.antt =====
-- That runs return, and what their revisions publish: src/fl_op/planning/plans.py.
use fl_op.Base.{
  ℕ, ◌+◌, ◌≡◌, refl, ap, Option, some, ◌&&◌, ◌||◌, not, List, [], ◌∷◌, ◌++◌, Text, text_eq,
  contains, Distinct, arith, length,
}
use fl_op.Stream.Dedup.{EventDedupStore}
use fl_op.Stream.Apply.Rows.{Host, Tables}
use fl_op.Stream.Apply.Upserts.{ExecutionEvent}
use fl_op.Stream.Apply.Dispatch.{in_store}
use fl_op.Stream.Driver.Batches.{concat, coalesce}
use fl_op.Stream.Driver.Sessions.{
  Planner, Revision, StreamSession, published, open_session, start, drain_batches,
}
use fl_op.Stream.Driver.Once.{named_ids}
use fl_op.Stream.Driver.Turn.{AllGood, session_knows}
use fl_op.Stream.Driver.Started.{IsStarted, drain_returns, drain_batches-IsStarted}
use fl_op.Stream.Driver.Published.{Part, Part-then, none-Drained, drain-Drained}
use fl_op.Stream.Runs.{
  Settings, no_callback, record_ids, publish, run, run_plan_rolling, watch_cycles, run_plan_watch,
}
use fl_op.Stream.Runs.Publish.{HasRoom, silent, recording}

module _ (h : Host) (t : Tables) (p : Planner h) (c : Settings h) where
  -- The revisions of a run over a store publish exactly the ids that its events bring and that the
  -- store did not know, each once.
  abbrev pub PublishesNew :
      Option EventDedupStore → List (ExecutionEvent h) → List (Revision h p) → Type 0
  PublishesNew store events revisions =
      Distinct (published h t p revisions)
      × ((i : Text)
          → contains i (published h t p revisions)
            ≡ (contains i (named_ids h t events) && not (in_store h t store i)))

  -- The session that a run starts with.
  abbrev pub started : Option EventDedupStore → Revision h p × StreamSession h p
  started store = start h t p (open_session h t p c.sources store c.effective_at c.objective)

  started_knows :
      (store : Option EventDedupStore) (i : Text)
      → session_knows h t p (started store).1 i ≡ in_store h t store i
  unfolding start open_session contains
  started_knows store i = refl

  started-IsStarted : (store : Option EventDedupStore) → IsStarted h t p (started store).1
  unfolding start
  started-IsStarted store = (_, refl)

  run-PublishesNew :
      (events : List (ExecutionEvent h)) (store : Option EventDedupStore)
      → (revisions : List (Revision h p)) × (run h t p c events store ≡ some revisions)
        × PublishesNew store events revisions
  unfolding run published
  run-PublishesNew events store =
      let s = (started store).1 in
      let ready = started-IsStarted store in
      let (made, final) =
        drain_batches h t p (no_callback h t p c)
          (coalesce h t events c.convergence_window s.effective_at) ready.0 s in
      let drained =
        drain-Drained h t p (silent h t p c) c.convergence_window events ready.0 s 0 (λ i m. tt)
          tt in
      (
        (started store).0 ∷ made,
        rw (drain_returns h t p (no_callback h t p c) c.convergence_window events s ready) refl,
        (
          unfold start in drained.distinct,
          λ i. unfold start in ground (arith, drained.exact i, started_knows store i),
        ),
      )

  -- A rolling run returns. Its revisions publish exactly the ids that its events bring and that its
  -- store did not know, each once, and these are what it records in the store.
  pub run_plan_rolling-PublishesNew :
      (events : List (ExecutionEvent h)) (store : Option EventDedupStore)
      → (revisions : List (Revision h p)) × (run_plan_rolling h t p c events store
          ≡ some (revisions, record_ids h t p c (published h t p revisions) store))
        × PublishesNew store events revisions
  unfolding run_plan_rolling
  run_plan_rolling-PublishesNew events store =
      let (revisions, e, new) = run-PublishesNew events store in (revisions, rw e refl, new)

  -- The cycles of a watcher return, and publish what one drain of all their events would.
  abbrev CyclesDrained : List (List (ExecutionEvent h)) → StreamSession h p → Type 0
  CyclesDrained cycles s =
      (made : List (Revision h p)) × (final : StreamSession h p) × (watch_cycles h t p c cycles s
        ≡ some (made, final))
      × Part h t p (recording h t p c) (concat cycles) made s final

  watch_cycles-CyclesDrained :
      (cycles : List (List (ExecutionEvent h))) (s : StreamSession h p)
      → IsStarted h t p s
      → CyclesDrained cycles s
  unfolding watch_cycles concat published
  watch_cycles-CyclesDrained [] s ready =
      ([], s, refl, λ n good room. none-Drained h t p (recording h t p c) s n room)
  watch_cycles-CyclesDrained ([] ∷ cycles) s ready = watch_cycles-CyclesDrained cycles s ready
  watch_cycles-CyclesDrained ((event ∷ events) ∷ cycles) s ready =
      let batches = coalesce h t (event ∷ events) c.convergence_window s.effective_at in
      let (made, next) = drain_batches h t p (publish h t p c) batches ready.0 s in
      let returns =
        drain_returns h t p (publish h t p c) c.convergence_window (event ∷ events) s ready in
      let (others, final, e, later) =
        watch_cycles-CyclesDrained cycles next
          (drain_batches-IsStarted h t p (publish h t p c) batches ready.0 s ready) in
      (
        made ++ others,
        final,
        rw returns (rw e refl),
        Part-then h t p (recording h t p c) s next final (event ∷ events) (concat cycles) made
            others
            (drain-Drained h t p (recording h t p c) c.convergence_window (event ∷ events) ready.0
              s)
            later,
      )

  watching : (store : Option EventDedupStore) → StreamSession h p
  watching store =
      let (baseline, s) = started store in
      record s { dedup_store = publish h t p c baseline s.dedup_store }

  watching_store :
      (store : Option EventDedupStore)
      → ((watching store).dedup_store ≡ store)
        × ((i : Text) → session_knows h t p (watching store) i ≡ in_store h t store i)
  unfolding watching start open_session publish contains
  watching_store store = (refl, λ i. refl)

  baseline_ids :
      (store : Option EventDedupStore) (made : List (Revision h p))
      → published h t p ((started store).0 ∷ made) ≡ published h t p made
  unfolding start published
  baseline_ids store made = refl

  run_plan_watch_returns :
      (cycles : List (List (ExecutionEvent h))) (store : Option EventDedupStore)
      → (revisions : List (Revision h p)) × (after : Option EventDedupStore) × (run_plan_watch h t p
            c cycles store
          ≡ some (revisions, after))
        × ((n : ℕ)
            → AllGood h t p (recording h t p c) (named_ids h t (concat cycles))
            → HasRoom h t p c store (length (published h t p revisions) + n)
            → PublishesNew store (concat cycles) revisions
              × HasRoom h t p c after n
              × ((i : Text)
                  → in_store h t after i
                    ≡ (in_store h t store i || contains i (published h t p revisions))))
  unfolding run_plan_watch watching publish start open_session
  run_plan_watch_returns cycles store =
      let s = watching store in
      let (made, final, e, part) = watch_cycles-CyclesDrained cycles s (started-IsStarted store) in
      let (same, knew) = watching_store store in
      (
        (started store).0 ∷ made,
        final.dedup_store,
        rw e refl,
        λ n good room.
            let drained = part n good (rw same (rw baseline_ids at room)) in
            (
              (
                rw baseline_ids drained.distinct,
                λ i. rw baseline_ids (ground (arith, drained.exact i, knew i)),
              ),
              drained.room,
              λ i.
                  rw baseline_ids (ground (arith, drained.told i, ap (λ o. in_store h t o i) same)),
            ),
      )

  pub same_result :
      (a b : List (Revision h p)) (x y : Option EventDedupStore)
      (r : Option (List (Revision h p) × Option EventDedupStore))
      → r ≡ some (a, x)
      → r ≡ some (b, y)
      → (b ≡ a) × (y ≡ x)
  same_result a b x y r e f = ground (arith, e, f)

  -- Over a store that has room for them, the revisions of a watcher publish exactly the ids that the
  -- cycles bring and that the store did not know, each once, and in the end the store knows what it
  -- knew and these.
  pub run_plan_watch-PublishesNew :
      (cycles : List (List (ExecutionEvent h))) (store after : Option EventDedupStore)
      (revisions : List (Revision h p)) (n : ℕ)
      → run_plan_watch h t p c cycles store ≡ some (revisions, after)
      → AllGood h t p (recording h t p c) (named_ids h t (concat cycles))
      → HasRoom h t p c store (length (published h t p revisions) + n)
      → PublishesNew store (concat cycles) revisions
        × HasRoom h t p c after n
        × ((i : Text)
            → in_store h t after i
              ≡ (in_store h t store i || contains i (published h t p revisions)))
  run_plan_watch-PublishesNew cycles store after revisions n e good room =
      let (revisions', after', e', promised) = run_plan_watch_returns cycles store in
      let (same, store_is) = same_result revisions revisions' after after' _ e e' in
      let (new, left, told) = promised n good (rw same room) in
      (rw same at new, rw store_is at left, λ i. rw (same, store_is) at (told i))
