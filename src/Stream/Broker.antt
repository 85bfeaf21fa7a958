-- ===== src/Stream/Broker.antt =====
-- Consuming a broker topic: `BrokerEventSource` of src/fl_op/stream/broker.py. The Kafka client is a
-- `Consumer`: what the source calls of it, over a state of its own.
pub mod Answers
pub mod Course
pub mod Backlog
mod Tests
pub mod Registry
pub mod Poison
use fl_op.Base.{
  ℕ, suc, zero, Option, none, some, or_else, Bool, true, false, ◌&&◌, ◌||◌, not, List, [], ◌∷◌,
  Text, text_eq, codes, if◌then◌else◌, ltb, eqb,
}
use fl_op.Stream.Apply.Rows.{Host}
use fl_op.Stream.Apply.Upserts.{ExecutionEvent}
use fl_op.Stream.Source.{
  Codec, Parsed, parsed, value_error, attribute_error, type_error, ill_typed, parse_text,
  stamp_broker_ingested,
}

-- `message.timestamp()`: no such method, or one that raises; or a type and milliseconds, if any.
pub data Timestamp (F : Type 0) : Type 0 where
  no_timestamp : Timestamp F
  stamped : ℕ → Option F → Timestamp F

-- `message.value()`: None (a tombstone), bytes, or a text.
pub data Payload : Type 0 where
  tombstone : Payload
  bytes : List ℕ → Payload
  text_value : Text → Payload

pub record Message (F : Type 0) : Type 0 where
  pub has_error : Bool
  pub timestamp : Timestamp F
  pub value : Payload

pub record Consumer (F : Type 0) : Type 1 where
  pub S : Type 0
  pub poll : S → Option (Message F) × S
  pub commit : S → S
  pub close : S → S

-- What a poll's message gives: an event, nothing (it is skipped), or what it raises.
pub data Read (h : Host) : Type 0 where
  event_read : ExecutionEvent h → Read h
  skipped : Read h
  unicode_error attribute_raised type_raised : Read h
  not_followed : Read h

module _ (h : Host) (k : Codec h) where
  -- `_message_epoch_ms`, where 0 is TIMESTAMP_NOT_AVAILABLE
  unfoldable pub message_epoch_ms : Timestamp h.Float → Option h.Float
  message_epoch_ms no_timestamp = none
  message_epoch_ms (stamped ts_type none) = none
  message_epoch_ms (stamped ts_type (some ts_ms)) = if eqb ts_type 0 then none else some ts_ms

  abbrev read_parsed : Option h.Float → Parsed (ExecutionEvent h) → Read h
  read_parsed arrival (parsed event) = event_read (stamp_broker_ingested h k event arrival)
  read_parsed arrival value_error = skipped
  read_parsed arrival attribute_error = attribute_raised
  read_parsed arrival type_error = type_raised
  read_parsed arrival ill_typed = not_followed

  -- The body of the loop for a message without an error. The decoding stands before the `try`, and
  -- `json.loads(None)` raises a TypeError.
  unfoldable pub read_message : Message h.Float → Read h
  unfolding message_epoch_ms parse_text stamp_broker_ingested
  read_message message = go message.value
    where
      decoded : Option Text → Read h
      decoded none = unicode_error
      decoded (some raw) = read_parsed (message_epoch_ms message.timestamp) (parse_text h k raw)

      go : Payload → Read h
      go tombstone = type_raised
      go (bytes raw) = decoded (k.decode_utf8 raw)
      go (text_value raw) = decoded (some raw)

-- How an iteration ends: by its bound, by what a message raised, or not within the fuel.
pub data Ending (h : Host) : Type 0 where
  finished : Ending h
  raised : Read h → Ending h
  out_of_fuel : Ending h

module _ (h : Host) (k : Codec h) (client : Consumer h.Float) where
  pub record Drain : Type 0 where
    pub events : List (ExecutionEvent h)
    pub ending : Ending h
    pub consumer : client.S

  -- `while max_empty_polls is None or empty_polls < max_empty_polls`
  unfoldable pub polls_on : Option ℕ → ℕ → Bool
  polls_on none empty_polls = true
  polls_on (some max_empty_polls) empty_polls = ltb empty_polls max_empty_polls

  abbrev pub with_event : ExecutionEvent h → Drain → Drain
  with_event event d = record d { events = event ∷ d.events }

  abbrev pub stop : Ending h → client.S → Drain
  stop ending s = record { events = []; ending = ending; consumer = s }

  -- A message that is read: the rest of the loop is there for those that do not raise.
  unfoldable pub after_read : Read h → client.S → Drain → Drain
  after_read (event_read event) s rest = with_event event rest
  after_read skipped s rest = rest
  after_read unicode_error s rest = stop (raised unicode_error) s
  after_read attribute_raised s rest = stop (raised attribute_raised) s
  after_read type_raised s rest = stop (raised type_raised) s
  after_read not_followed s rest = stop (raised not_followed) s

  -- `__iter__`, read to its end, on fuel. A message with an error does not touch the count of empty
  -- polls.
  unfoldable pub iterate : ℕ → Option ℕ → ℕ → client.S → Drain
  iterate zero max_empty_polls empty_polls s = stop out_of_fuel s
  iterate (suc fuel) max_empty_polls empty_polls s =
      go (polls_on max_empty_polls empty_polls) (iterate fuel max_empty_polls)
    where
      on_message : Bool → Message h.Float → client.S → (ℕ → client.S → Drain) → Drain
      on_message true message s' loop = loop empty_polls s'
      on_message false message s' loop = after_read (read_message h k message) s' (loop 0 s')

      on_poll : Option (Message h.Float) → client.S → (ℕ → client.S → Drain) → Drain
      on_poll none s' loop = loop (suc empty_polls) s'
      on_poll (some message) s' loop = on_message message.has_error message s' loop

      go : Bool → (ℕ → client.S → Drain) → Drain
      go false loop = stop finished s
      go true loop = on_poll (client.poll s).0 (client.poll s).1 loop

  -- The source's consumer: the client, and whether `_consumer` is it or None.
  pub record BrokerSource : Type 0 where
    pub client_state : client.S
    pub is_open : Bool

  unfoldable pub commit_offsets : BrokerSource → BrokerSource
  commit_offsets b =
      if b.is_open then record b { client_state = client.commit b.client_state } else b

  unfoldable pub close : BrokerSource → BrokerSource
  close b =
      if b.is_open
      then record { client_state = client.close b.client_state; is_open = false }
      else b

  -- `commit`, which closes too
  unfoldable pub commit : BrokerSource → BrokerSource
  unfolding commit_offsets close
  commit b = close (commit_offsets b)
