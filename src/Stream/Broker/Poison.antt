-- ===== src/Stream/Broker/Poison.antt =====
-- Messages that end an iteration: src/fl_op/stream/broker.py.
use fl_op.Base.{ℕ, suc, ◌≡◌, refl, none, some, false, [], arith}
use fl_op.Stream.Apply.Rows.{Host}
use fl_op.Stream.Source.{Codec, Elements, array, parse_text, parse_event}
use fl_op.Stream.Broker.{
  Message, Consumer, Payload, tombstone, bytes, text_value, Read, unicode_error, attribute_raised,
  type_raised, read_message, Drain, raised, polls_on, after_read, iterate,
}
use fl_op.Stream.Broker.Backlog.{iterate_read}

module _ (h : Host) (k : Codec h) where
  -- None, bytes that are no UTF-8, and a text that is a JSON array.
  abbrev pub IsPoison : Payload → Type 0
  IsPoison tombstone = Unit
  IsPoison (bytes raw) = k.decode_utf8 raw ≡ none
  IsPoison (text_value raw) = (elements : Elements h.Float) × (k.loads raw ≡ some (array elements))

  data Raises : Read h → Type 0 where
    unicode : Raises unicode_error
    attribute : Raises attribute_raised
    type : Raises type_raised

  poison_read :
      (payload : Payload) (m : Message h.Float)
      → m.value ≡ payload
      → IsPoison payload
      → Raises (read_message h k m)
  unfolding read_message parse_text parse_event
  poison_read tombstone m e poison = rw e type
  poison_read (bytes raw) m e poison = rw e (rw poison unicode)
  poison_read (text_value raw) m e (_, loaded) = rw e (rw loaded attribute)

  stops :
      (client : Consumer h.Float) (r : Read h) (s : client.S) (rest : Drain h k client)
      → Raises r
      → let d = after_read h k client r s rest in
        (d.events ≡ []) × (d.ending ≡ raised r) × (d.consumer ≡ s)
  unfolding after_read
  stops client _ s rest unicode = (refl, refl, refl)
  stops client _ s rest attribute = (refl, refl, refl)
  stops client _ s rest type = (refl, refl, refl)

  -- One such message at the front of the backlog ends the iteration with what it raises: no event is
  -- yielded, whatever stands behind the message.
  pub poison_stops :
      (client : Consumer h.Float) (fuel max_empty : ℕ) (s : client.S) (m : Message h.Float)
      → (client.poll s).0 ≡ some m
      → m.has_error ≡ false
      → IsPoison m.value
      → let d = iterate h k client (suc fuel) (some (suc max_empty)) 0 s in
        (d.events ≡ [])
        × (d.ending ≡ raised (read_message h k m))
        × (d.consumer ≡ (client.poll s).1)
  poison_stops client fuel max_empty s m got ok poison =
      rw
        (iterate_read h k client fuel (some (suc max_empty)) 0 s m (unfold polls_on in ground arith)
          got ok)
        (stops client (read_message h k m) _ _ (poison_read m.value m refl poison))
