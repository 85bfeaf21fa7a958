-- ===== src/Stream/Apply/Upserts.antt =====
-- Rows that an event's payload brings: `_append_payload`, `_upsert_entity` and `_merge_inventory` of
-- src/fl_op/stream/apply.py, with `_bump_watermark`.
use fl_op.Base.{
  ℕ, Option, none, some, is_some, Bool, true, false, ◌&&◌, List, [], ◌∷◌, ◌++◌, Text, text_eq,
  codes, if◌then◌else◌, ltb, map, keep, ◌==◌,
}
use fl_op.Base.Dict.{Dict, get, put}
use fl_op.Base.Strip.{is_empty}
use fl_op.Stream.Apply.Rows.{
  Host, Value, text, Row, Sources, Tables, Table, contracts_for, key_field, row_get, matches,
  str_value, adjust, replace_first,
}
use fl_op.Stream.Apply.Tasks.{State, rows_of}

-- `ExecutionEvent` of src/fl_op/stream/source.py.
pub record ExecutionEvent (h : Host) : Type 0 where
  pub event_id : Text
  pub event_type : Text
  pub observed_at : Text
  pub entity_ref : Text
  pub payload : Row h
  pub ingested_at : Text

module _ (h : Host) where
  -- `not str(payload.get(field, ""))`
  abbrev blank_value : Option (Value h.Float) → Bool
  blank_value none = true
  blank_value (some v) = is_empty (str_value h v)

  -- `extra`, of one field at most, where the producer left it blank
  unfoldable pub fill_blank : Option (Text × Text) → Row h → Row h
  unfolding str_value
  fill_blank none payload = payload
  fill_blank (some (field, value)) payload =
      if blank_value (get field payload) then put field (text value) payload else payload

  -- The payload in place of the first row with its key, or after the last row.
  abbrev pub or_append : Row h → List (Row h) → Option (List (Row h)) → List (Row h)
  or_append payload rows none = rows ++ payload ∷ []
  or_append payload rows (some replaced) = replaced

  -- `if key and key in payload: …`
  abbrev pub same_key : Option Text → Row h → Row h → Bool
  same_key none payload row = false
  same_key (some key) payload row =
      is_some (get key payload) && matches h key (str_value h (row_get h key payload)) row

  unfoldable pub upsert_row : Option Text → Row h → List (Row h) → List (Row h)
  unfolding replace_first str_value matches
  upsert_row key payload rows =
      or_append payload rows (replace_first h (same_key key payload) (λ _. payload) rows)

module _ (h : Host) (t : Tables) where
  unfoldable pub append_payload : Text → Row h → Option (Text × Text) → Sources h → Sources h
  unfolding contracts_for key_field adjust upsert_row fill_blank
  append_payload entity payload extra sources = go (contracts_for t entity sources)
    where
      go : List Text → Sources h
      go [] = sources
      go (cid ∷ _) =
          adjust h cid (upsert_row h (key_field t cid) (fill_blank h extra payload)) sources

  -- `_bump_watermark`
  unfoldable pub bump_watermark : Text → Option ℕ → Dict Text ℕ → Dict Text ℕ
  bump_watermark cid none watermarks = watermarks
  bump_watermark cid (some observed) watermarks = go (get cid watermarks)
    where
      go : Option ℕ → Dict Text ℕ
      go none = put cid observed watermarks
      go (some current) = if ltb current observed then put cid observed watermarks else watermarks

  -- `.replace("Z", "+00:00")`
  unfoldable pub replace_z : Text → Text
  replace_z [] = []
  replace_z (c ∷ s) =
      if (c ∷ []) == codes "Z" then codes "+00:00" ++ replace_z s else c ∷ replace_z s

  -- `_parse_observed`
  unfoldable pub parse_observed : ExecutionEvent h → Option ℕ
  unfolding replace_z
  parse_observed event =
      if is_empty event.observed_at then none else h.from_iso_format (replace_z event.observed_at)

  -- `_upsert_entity`: the contracts that are loaded and whose key column the payload has
  unfoldable pub upsert_candidates : Row h → Sources h → List Text
  unfolding key_field
  upsert_candidates payload sources = keep usable (map (λ (e : Text × Table). e.0) t.tables)
    where
      has_key : Option Text → Bool
      has_key none = false
      has_key (some key) = is_some (get key payload)

      usable : Text → Bool
      usable cid = is_some (get cid sources) && has_key (key_field t cid)

  -- The first candidate with a row of the payload's key, its rows with that row replaced.
  unfoldable pub replace_in : Row h → List Text → Sources h → Option (Text × Sources h)
  unfolding replace_first key_field str_value matches adjust
  replace_in payload [] sources = none
  replace_in payload (cid ∷ cids) sources =
      let later = replace_in payload cids sources in
      go later (
        replace_first h (same_key h (key_field t cid) payload) (λ _. payload)
          (rows_of h t cid sources))
    where
      go : Option (Text × Sources h) → Option (List (Row h)) → Option (Text × Sources h)
      go later none = later
      go later (some rows) = some (cid, adjust h cid (λ _. rows) sources)

  abbrev appended : Row h → List Text → Sources h → Option (Text × Sources h)
  appended payload [] sources = none
  appended payload (cid ∷ _) sources =
      some (cid, adjust h cid (λ rows. rows ++ payload ∷ []) sources)

  -- The corrected rows with the watermark of their contract.
  unfoldable pub correct : ExecutionEvent h → Option (Text × Sources h) → State h → State h
  unfolding bump_watermark parse_observed
  correct event none st = st
  correct event (some (cid, sources)) st = record st {
    sources = sources;
    watermarks = bump_watermark cid (parse_observed event) st.watermarks;
  }

  abbrev or_appended :
      Option (Text × Sources h) → Option (Text × Sources h) → Option (Text × Sources h)
  or_appended (some done) _ = some done
  or_appended none other = other

  unfoldable pub upsert_entity : ExecutionEvent h → State h → State h
  unfolding upsert_candidates replace_in adjust correct
  upsert_entity event st =
      let candidates = upsert_candidates event.payload st.sources in
      correct event
        (or_appended (replace_in event.payload candidates st.sources)
          (appended event.payload candidates st.sources))
        st

  -- `row.update(payload)`
  unfoldable pub update_row : Row h → Row h → Row h
  update_row [] row = row
  update_row ((field, v) ∷ payload) row = update_row payload (put field v row)

  -- `_merge_inventory`
  unfoldable pub merge_in : Row h → List Text → Sources h → Sources h
  unfolding replace_first key_field str_value matches adjust update_row
  merge_in payload [] sources = sources
  merge_in payload (cid ∷ cids) sources =
      let later = merge_in payload cids sources in
      go later (
        replace_first h (same_key h (key_field t cid) payload) (update_row payload)
          (rows_of h t cid sources))
    where
      go : Sources h → Option (List (Row h)) → Sources h
      go later none = later
      go later (some rows) = adjust h cid (λ _. rows) sources

  unfoldable pub merge_inventory : Row h → Sources h → Sources h
  unfolding merge_in contracts_for
  merge_inventory payload sources =
      merge_in payload (contracts_for t (codes "location") sources) sources
