-- ===== src/Stream/Source.antt =====
-- Reading events: src/fl_op/stream/source.py. JSON documents are the values that `json.loads` gives.
use fl_op.Base.{
  ℕ, Option, none, some, or_else, is_some, Bool, true, false, ◌||◌, not, List, [], ◌∷◌, Text,
  text_eq, codes, if◌then◌else◌, ◌==◌,
}
use fl_op.Base.Dict.{put}
use fl_op.Base.Strip.{strip, is_empty}
use fl_op.Stream.Apply.Rows.{Host, Value, null, text, number, opaque, Row}
use fl_op.Stream.Apply.Upserts.{ExecutionEvent}
use fl_op.Stream.Apply.Dispatch.{event_type_of}

-- A JSON value; arrays and objects hold values.
mutual
  pub data Json (F : Type 0) : Type 0 where
    nothing : Json F
    flag : Bool → Json F
    number_of : F → Json F
    text_of : Text → Json F
    array : Elements F → Json F
    object : Members F → Json F

  pub data Elements (F : Type 0) : Type 0 where
    no_elements : Elements F
    element : Json F → Elements F → Elements F

  pub data Members (F : Type 0) : Type 0 where
    no_members : Members F
    member : Text → Json F → Members F → Members F

-- The standard library's part: `json.loads`, with none for a JSONDecodeError, `str` of a parsed
-- value, `bytes.decode("utf-8")`, with none for a UnicodeDecodeError, and the ISO text of the instant
-- at that many milliseconds of the epoch, in UTC.
pub record Codec (h : Host) : Type 0 where
  pub loads : Text → Option (Json h.Float)
  pub show : Json h.Float → Text
  pub decode_utf8 : List ℕ → Option Text
  pub utc_isoformat : h.Float → Text

-- What parsing ends with: a value; ValueError, of which JSONDecodeError is one; AttributeError;
-- TypeError; or an event some of whose fields are not of the types that ExecutionEvent declares, which
-- Python builds all the same and which is not followed further.
pub data Parsed (A : Type 0) : Type 0 where
  parsed : A → Parsed A
  value_error attribute_error type_error ill_typed : Parsed A

abbrev pub bind : {A B : Type 0} → Parsed A → (A → Parsed B) → Parsed B
bind (parsed a) f = f a
bind value_error f = value_error
bind attribute_error f = attribute_error
bind type_error f = type_error
bind ill_typed f = ill_typed

module _ (h : Host) (k : Codec h) where
  -- `record.get(name)`: the last member of the name is the dict's
  unfoldable pub member_of : Text → Members h.Float → Option (Json h.Float)
  member_of name no_members = none
  member_of name (member other value members) = later (member_of name members)
    where
      later : Option (Json h.Float) → Option (Json h.Float)
      later (some found) = some found
      later none = if other == name then some value else none

  -- The truth of a JSON value in Python.
  abbrev has_elements : Elements h.Float → Bool
  has_elements no_elements = false
  has_elements (element _ _) = true

  abbrev has_members : Members h.Float → Bool
  has_members no_members = false
  has_members (member _ _ _) = true

  abbrev pub truthy_json : Json h.Float → Bool
  truthy_json nothing = false
  truthy_json (flag b) = b
  truthy_json (number_of x) = not (h.is_zero x)
  truthy_json (text_of s) = not (is_empty s)
  truthy_json (array elements) = has_elements elements
  truthy_json (object members) = has_members members

  -- A payload's values as the handlers read them.
  abbrev float_of_flag : Bool → h.Float
  float_of_flag b = if b then h.one_f else h.zero_f

  abbrev pub value_of : Json h.Float → Value h.Float
  value_of nothing = null
  value_of (flag b) = opaque (k.show (flag b)) b (some (float_of_flag b))
  value_of (number_of x) = number x
  value_of (text_of s) = text s
  value_of (array elements) = opaque (k.show (array elements)) (has_elements elements) none
  value_of (object members) = opaque (k.show (object members)) (has_members members) none

  -- Members of one name are one key of the dict, with the last one's value.
  unfoldable pub row_of : Members h.Float → Row h
  row_of members = go members []
    where
      go : Members h.Float → Row h → Row h
      go no_members row = row
      go (member name value rest) row = go rest (put name (value_of value) row)

  -- `record.get(name, "")`
  abbrev pub field_of : Text → Members h.Float → Json h.Float
  field_of name record_ = or_else (member_of name record_) (text_of [])

  abbrev text_field : Json h.Float → Parsed Text
  text_field (text_of s) = parsed s
  text_field _ = ill_typed

  -- `json.loads`
  abbrev pub loads : Text → Parsed (Json h.Float)
  loads raw = go (k.loads raw)
    where
      go : Option (Json h.Float) → Parsed (Json h.Float)
      go none = value_error
      go (some j) = parsed j

  -- `payload_json`, where the payload is absent or None: a text is parsed, another value is taken if
  -- Python takes it for true.
  unfoldable pub payload_json : Json h.Float → Parsed (Json h.Float)
  payload_json (text_of raw) = loads raw
  payload_json raw = parsed (if truthy_json raw then raw else object no_members)

  unfoldable pub event_payload : Members h.Float → Parsed (Json h.Float)
  unfolding member_of payload_json
  event_payload record_ = go (member_of (codes "payload") record_)
    where
      raw : Json h.Float
      raw = or_else (member_of (codes "payload_json") record_) (text_of (codes "{}"))

      go : Option (Json h.Float) → Parsed (Json h.Float)
      go none = payload_json raw
      go (some nothing) = payload_json raw
      go (some payload) = parsed payload

  -- `event_type not in SUPPORTED_EVENT_TYPES`, which a list and a dict have no hash for
  unfoldable pub supported_type : Json h.Float → Parsed Text
  unfolding event_type_of
  supported_type (text_of name) = if is_some (event_type_of name) then parsed name else value_error
  supported_type (array _) = type_error
  supported_type (object _) = type_error
  supported_type _ = value_error

  abbrev payload_row : Json h.Float → Parsed (Row h)
  payload_row (object members) = parsed (row_of members)
  payload_row _ = ill_typed

  unfoldable pub build_event : Members h.Float → Json h.Float → Text → Parsed (ExecutionEvent h)
  unfolding member_of row_of
  build_event record_ payload event_type =
      bind (text_field (field_of (codes "event_id") record_)) (λ event_id.
        bind (text_field (field_of (codes "observed_at") record_)) (λ observed_at.
          bind (text_field (field_of (codes "entity_ref") record_)) (λ entity_ref.
            bind (payload_row payload) (λ row.
              bind (text_field (field_of (codes "ingested_at") record_)) (λ ingested_at.
                parsed (record {
                  event_id = event_id;
                  event_type = event_type;
                  observed_at = observed_at;
                  entity_ref = entity_ref;
                  payload = row;
                  ingested_at = ingested_at;
                }))))))

  -- `parse_event`
  unfoldable pub parse_event : Json h.Float → Parsed (ExecutionEvent h)
  unfolding event_payload supported_type build_event member_of
  parse_event (object record_) = bind (event_payload record_) (λ payload.
      bind (supported_type (field_of (codes "event_type") record_)) (build_event record_ payload))
  parse_event _ = attribute_error

  -- `parse_event(json.loads(raw))`
  unfoldable pub parse_text : Text → Parsed (ExecutionEvent h)
  unfolding parse_event
  parse_text raw = bind (loads raw) parse_event

  -- `stamp_broker_ingested`
  unfoldable pub stamp_broker_ingested : ExecutionEvent h → Option h.Float → ExecutionEvent h
  stamp_broker_ingested event none = event
  stamp_broker_ingested event (some arrival) =
      if not (is_empty event.ingested_at) || h.is_zero arrival || h.le arrival h.zero_f
      then event
      else record event { ingested_at = k.utc_isoformat arrival }

  -- `JsonlEventSource.__iter__` over the lines of its file: the events up to the first line that
  -- raises, and what it raises
  unfoldable pub read_lines : List Text → List (ExecutionEvent h) × Parsed Unit
  unfolding parse_text
  read_lines [] = ([], parsed tt)
  read_lines (line ∷ lines) =
      let (events, ending) = read_lines lines in
      if is_empty (strip line) then (events, ending) else go events ending (parse_text (strip line))
    where
      go :
          List (ExecutionEvent h)
          → Parsed Unit
          → Parsed (ExecutionEvent h)
          → List (ExecutionEvent h) × Parsed Unit
      go events ending (parsed event) = (event ∷ events, ending)
      go events ending value_error = ([], value_error)
      go events ending attribute_error = ([], attribute_error)
      go events ending type_error = ([], type_error)
      go events ending ill_typed = ([], ill_typed)
