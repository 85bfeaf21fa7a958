-- ===== src/Stream/Broker/Tests.antt =====
-- A small topic: src/fl_op/stream/broker.py.

use fl_op.Stream.Broker.{after_read}
use fl_op.Stream.Broker.{polls_on}
use fl_op.Base.{
  ℕ, ◌+◌, ◌*◌, ◌≡◌, ◌≢◌, refl, Option, none, some, false, List, [], ◌∷◌, Text, text_eq, codes,
  arith, length, if◌then◌else◌, ◌==◌,
}
use fl_op.Stream.Apply.Tests.{hundredths}
use fl_op.Stream.Source.{Json, object, member, no_members, text_of, Codec}
use fl_op.Stream.Broker.{
  Message, Consumer, tombstone, text_value, no_timestamp, iterate, raised, out_of_fuel,
  read_message,
}
use fl_op.Stream.Broker.Answers.{Backlog}
use fl_op.Stream.Broker.Course.{Drained}
use fl_op.Stream.Broker.Backlog.{iterate_drains}
use fl_op.Stream.Broker.Poison.{poison_stops}

-- One document: a started task, which the text "s" stands for.
abbrev started : Json ℕ
started = object (
    member (codes "event_id") (text_of (codes "e1"))
      (member (codes "event_type") (text_of (codes "task.started")) no_members))

abbrev one_document : Codec hundredths
one_document = record {
  loads = λ raw.
      if raw == codes "s"
      then some started
      else if raw == codes "{}"
      then some (object no_members)
      else none;
  show = λ j. [];
  decode_utf8 = λ raw. some raw;
  utc_isoformat = λ ms. [];
}

-- A client that hands out the messages of a list.
abbrev next_of : List (Message ℕ) → Option (Message ℕ) × List (Message ℕ)
next_of [] = (none, [])
next_of (m ∷ messages) = (some m, messages)

abbrev listed : Consumer ℕ
listed = record { S = List (Message ℕ); poll = next_of; commit = λ s. s; close = λ s. s }

next_of-some :
    (s : List (Message ℕ)) (m : Message ℕ) → (next_of s).0 ≡ some m → s ≡ m ∷ (next_of s).1
next_of-some [] m e = cc
next_of-some (m' ∷ s) m e = ground (arith, e)

next_of-none : (s : List (Message ℕ)) → (next_of s).0 ≡ none → (next_of s).1 ≡ s
next_of-none [] e = refl
next_of-none (m ∷ s) e = cc

listed_backlog : Backlog listed
listed_backlog = record { visible = λ s. s; poll_some = next_of-some; poll_none = next_of-none }

abbrev message : Text → Message ℕ
message raw = record { has_error = false; timestamp = no_timestamp; value = text_value raw }

abbrev dead : Message ℕ
dead = record { has_error = false; timestamp = no_timestamp; value = tombstone }

abbrev topic : List (Message ℕ)
topic = message (codes "x") ∷ message (codes "s") ∷ message (codes "s") ∷ []

-- The malformed message is skipped, the other two are read, and three empty polls end the source.
two_events : length (iterate hundredths one_document listed 30 (some 3) 0 topic).events ≡ 2
unfolding iterate polls_on after_read read_message
two_events = refl

iterate_drains_example :
    let d = iterate hundredths one_document listed (3 * 4 + 3 + 1) (some 3) 0 topic in
    (d.ending ≢ out_of_fuel)
    × Drained hundredths one_document listed listed_backlog 3 (3 * 4 + 3 + 1) 0 topic d
unfolding listed_backlog
iterate_drains_example = iterate_drains hundredths one_document listed listed_backlog 3 topic

poison_stops_example :
    let d = iterate hundredths one_document listed 30 (some 3) 0 (dead ∷ topic) in
    (d.events ≡ [])
    × (d.ending ≡ raised (read_message hundredths one_document dead))
    × (d.consumer ≡ topic)
poison_stops_example =
    poison_stops hundredths one_document listed 29 2 (dead ∷ topic) dead refl refl tt
