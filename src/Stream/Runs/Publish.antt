-- ===== src/Stream/Runs/Publish.antt =====
-- What `publish` and the record at the end of a run do to the store: src/fl_op/planning/plans.py over
-- src/fl_op/stream/dedup.py.
use fl_op.Base.{
  ℕ, ◌+◌, ◌≤◌, ◌≡◌, Option, none, some, Bool, true, false, ◌||◌, List, [], ◌∷◌, Text, text_eq,
  contains, arith, Bool-cases, inl, inr, All, length,
}
use fl_op.Base.Strip.{is_empty}
use fl_op.Stream.Dedup.{EventDedupStore, store_contains}
use fl_op.Stream.Dedup.Lines.{IsClean}
use fl_op.Stream.Dedup.Durable.{IsValid, record_published-IsValid}
use fl_op.Stream.Dedup.Room.{record_published_in_room, no_ids}
use fl_op.Stream.Apply.Rows.{Host, Tables}
use fl_op.Stream.Apply.Dispatch.{in_store}
use fl_op.Stream.Driver.Sessions.{Planner, Revision}
use fl_op.Stream.Driver.Turn.{Publisher}
use fl_op.Stream.Runs.{Settings, no_callback, record_ids, publish}

All-contains {κ} :
    (P : Text → Type κ) (xs : List Text) → ((i : Text) → contains i xs ≡ true → P i) → All P xs
unfolding contains
All-contains P [] h = tt
All-contains P (x ∷ xs) h = (
  h x (ground (arith, text_eq.agrees_iff x x)),
  All-contains P xs (λ i m. h i (ground (arith, m))),
)

pub or_false : (b : Bool) → b ≡ (b || false)
or_false b = ground arith

module _ (h : Host) (t : Tables) (p : Planner h) (c : Settings h) where
  -- A valid store, with room for `n` ids more.
  abbrev pub HasRoom : Option EventDedupStore → ℕ → Type 0
  HasRoom none n = ⊥
  HasRoom (some s) n = (length s.ids + n ≤ c.max_ids) × IsValid s

  pub record_ids_keeps :
      (ids : List Text) (store : Option EventDedupStore) (n : ℕ) (i : Text)
      → ((j : Text) → contains j ids ≡ true → IsClean j)
      → HasRoom store (length ids + n)
      → in_store h t (record_ids h t p c ids store) i ≡ (in_store h t store i || contains i ids)
  unfolding record_ids store_contains
  record_ids_keeps ids none n i clean room = elim room [ ]
  record_ids_keeps ids (some s) n i clean room =
      let kept = (record_published_in_room c.max_ids ids s (omega arith)).0 i in
      elim (Bool-cases (contains i ids)) [
        | inl listed ↦ ground (arith, kept, (clean i listed).present)
        | inr unlisted ↦ ground (arith, kept, unlisted)
      ]

  pub record_ids_leaves :
      (ids : List Text) (store : Option EventDedupStore) (n : ℕ)
      → ((i : Text) → contains i ids ≡ true → IsClean i)
      → HasRoom store (length ids + n)
      → HasRoom (record_ids h t p c ids store) n
  unfolding record_ids
  record_ids_leaves ids none n clean room = elim room [ ]
  record_ids_leaves ids (some s) n clean room =
      let few = (record_published_in_room c.max_ids ids s (omega arith)).1 in
      (
        omega (arith, few),
        record_published-IsValid c.max_ids ids s (All-contains IsClean ids clean) room.1,
      )

  abbrev pub silent : Publisher h t p
  silent = record {
    on_revision = no_callback h t p c;
    Room = λ store n. Unit;
    Good = λ i. Unit;
    records = false;
    leaves = λ r store n d fresh good room. tt;
    keeps = λ r store n i good room. or_false (in_store h t store i);
  }

  pub publish_keeps :
      (r : Revision h p) (store : Option EventDedupStore) (n : ℕ) (i : Text)
      → ((j : Text) → contains j r.applied_event_ids ≡ true → IsClean j)
      → HasRoom store (length r.applied_event_ids + n)
      → in_store h t (publish h t p c r store) i
        ≡ (in_store h t store i || contains i r.applied_event_ids)
  unfolding publish
  publish_keeps r store n i clean room = elim (Bool-cases (is_empty r.applied_event_ids)) [
    | inl baseline ↦ rw baseline (ground (arith, no_ids r.applied_event_ids baseline i))
    | inr ids ↦ rw ids (record_ids_keeps r.applied_event_ids store n i clean room)
  ]

  fewer : (store : Option EventDedupStore) (m n : ℕ) → HasRoom store (m + n) → HasRoom store n
  fewer none m n room = elim room [ ]
  fewer (some s) m n room = (omega arith, room.1)

  pub publish_leaves :
      (r : Revision h p) (store : Option EventDedupStore) (n : ℕ)
      → ((i : Text) → contains i r.applied_event_ids ≡ true → IsClean i)
      → HasRoom store (length r.applied_event_ids + n)
      → HasRoom (publish h t p c r store) n
  unfolding publish
  publish_leaves r store n clean room = elim (Bool-cases (is_empty r.applied_event_ids)) [
    | inl baseline ↦ rw baseline (fewer store (length r.applied_event_ids) n room)
    | inr ids ↦ rw ids (record_ids_leaves r.applied_event_ids store n clean room)
  ]

  abbrev pub recording : Publisher h t p
  recording = record {
    on_revision = publish h t p c;
    Room = HasRoom;
    Good = IsClean;
    records = true;
    leaves = λ r store n d fresh good room. publish_leaves r store n good room;
    keeps = publish_keeps;
  }
