-- ===== src/Stream/Broker/Answers.antt =====
-- What a client answers to the polls of an iteration, and what the answers say of its events and of its
-- end: the loop of src/fl_op/stream/broker.py.
use fl_op.Base.{
  ℕ, suc, ◌<◌, ◌≡◌, Option, none, some, Bool, true, false, ◌||◌, not, List, [], ◌∷◌, ◌++◌,
  if◌then◌else◌, All,
}
use fl_op.Stream.Apply.Rows.{Host}
use fl_op.Stream.Apply.Upserts.{ExecutionEvent}
use fl_op.Stream.Source.{Codec}
use fl_op.Stream.Broker.{
  Message, Consumer, Read, event_read, skipped, read_message, Ending, finished, raised, out_of_fuel,
}

module _ (h : Host) (k : Codec h) where
  abbrev pub event_of : Read h → List (ExecutionEvent h)
  event_of (event_read event) = event ∷ []
  event_of _ = []

  -- The events of the messages that have no error and parse, in order.
  unfoldable pub accepted : List (Message h.Float) → List (ExecutionEvent h)
  accepted [] = []
  accepted (m ∷ messages) =
      if m.has_error then accepted messages else event_of (read_message h k m) ++ accepted messages

  -- Whether a message that is read ends the iteration.
  abbrev pub raises : Read h → Bool
  raises (event_read event) = false
  raises skipped = false
  raises _ = true

  abbrev pub Answer : Type 0
  Answer = Option (Message h.Float)

  -- The messages among the answers.
  abbrev pub messages : List Answer → List (Message h.Float)
  messages [] = []
  messages (none ∷ answers) = messages answers
  messages (some m ∷ answers) = m ∷ messages answers

  -- Nothing, a message with an error, or one that does not raise.
  abbrev pub is_clean : Answer → Bool
  is_clean none = true
  is_clean (some m) = m.has_error || not (raises (read_message h k m))

  abbrev pub IsClean : Answer → Type 0
  IsClean a = is_clean a ≡ true

  -- The empty polls since the last message without an error, of which there were n at the start.
  abbrev pub idle_next : ℕ → Answer → ℕ
  idle_next n none = suc n
  idle_next n (some m) = if m.has_error then n else 0

  abbrev pub idle_polls : ℕ → List Answer → ℕ
  idle_polls n [] = n
  idle_polls n (a ∷ answers) = idle_polls (idle_next n a) answers

  -- Every poll was made with fewer idle polls than the bound.
  abbrev pub InBound : ℕ → ℕ → List Answer → Type 0
  InBound max_empty n [] = Unit
  InBound max_empty n (a ∷ answers) = (n < max_empty) × InBound max_empty (idle_next n a) answers

  -- An iteration finishes when its idle polls are as many as the bound, and no message raised; or it
  -- is ended by its last message, and none before it raised.
  abbrev pub EndsBy : ℕ → ℕ → List Answer → Ending h → Type 0
  EndsBy max_empty n answers out_of_fuel = Unit
  EndsBy max_empty n answers finished = (idle_polls n answers ≡ max_empty) × All IsClean answers
  EndsBy max_empty n answers (raised r) =
      (front : List Answer) × (m : Message h.Float) × (answers ≡ front ++ some m ∷ [])
      × (m.has_error ≡ false)
      × (read_message h k m ≡ r)
      × (raises r ≡ true)
      × All IsClean front

module _ {F : Type 0} (client : Consumer F) where
  -- The client answers the polls so, and is then in the last state.
  abbrev pub Answers : client.S → List (Option (Message F)) → client.S → Type 0
  Answers s [] last = s ≡ last
  Answers s (a ∷ answers) last = ((client.poll s).0 ≡ a) × Answers (client.poll s).1 answers last

-- What the client documents of `poll`: a message is the next one of the partition's log, and a poll
-- without one passes none over.
pub record Backlog {F : Type 0} (client : Consumer F) : Type 0 where
  pub visible : client.S → List (Message F)
  pub poll_some :
      (s : client.S) (m : Message F)
      → (client.poll s).0 ≡ some m
      → visible s ≡ m ∷ visible (client.poll s).1
  pub poll_none : (s : client.S) → (client.poll s).0 ≡ none → visible (client.poll s).1 ≡ visible s
