-- ===== src/Stream/Dedup.antt =====
-- The durable store of published event ids: src/fl_op/stream/dedup.py.
-- The file is its text, or none where there is no file.
pub mod Lines
pub mod Durable
pub mod Retention
pub mod Room
mod Tests
use fl_op.Base.{
  ℕ, ◌-◌, Option, none, some, Bool, true, false, ◌&&◌, ◌||◌, not, List, [], ◌∷◌, ◌++◌, length, drop,
  ltb, leb, eqb, Text, text_eq, contains, if◌then◌else◌,
}
use fl_op.Base.Strip.{strip, is_empty}

pub record EventDedupStore : Type 0 where
  pub file : Option Text
  pub ids : List Text
  pub seen : List Text

-- The characters at which `str.splitlines` ends a line.
unfoldable pub is_line_break : ℕ → Bool
is_line_break c =
    leb 10 c && leb c 13 || leb 28 c && leb c 30 || eqb c 133 || eqb c 8232 || eqb c 8233

-- `read_text().splitlines()`: the lines of what is left, where `line` is open, and `cr` says that a
-- carriage return stands before it.
unfoldable pub lines_from : Bool → Text → Text → List Text
unfolding is_line_break
lines_from cr line [] = if is_empty line then [] else line ∷ []
lines_from cr line (c ∷ s) =
    let after_crlf = lines_from false line s in
    let ended = line ∷ lines_from (eqb c 13) [] s in
    let longer = lines_from false (line ++ c ∷ []) s in
    if cr && eqb c 10 then after_crlf else if is_line_break c then ended else longer

unfoldable pub split_lines : Text → List Text
unfolding lines_from
split_lines = lines_from false []

-- The test of both loops: an id that is not empty and not known.
abbrev pub is_new : Text → List Text → Bool
is_new event_id seen = not (is_empty event_id) && not (contains event_id seen)

-- The loop of `__init__`, over the ids known so far.
unfoldable pub load : List Text → List Text → List Text
load seen [] = seen
load seen (line ∷ lines) =
    load (if is_new (strip line) seen then seen ++ strip line ∷ [] else seen) lines

abbrev pub contents : Option Text → Text
contents none = []
contents (some t) = t

-- `__init__`
unfoldable pub open_store : Option Text → EventDedupStore
unfolding load split_lines
open_store file = record {
  file = file;
  ids = load [] (split_lines (contents file));
  seen = load [] (split_lines (contents file));
}

-- `event_id in store`, `len(store)`
unfoldable pub store_contains : EventDedupStore → Text → Bool
store_contains s event_id = contains event_id s.seen

unfoldable pub store_length : EventDedupStore → ℕ
store_length s = length s.ids

-- The ids of `event_ids` that are new, each once, in order.
unfoldable pub collect_new : List Text → List Text → List Text
collect_new seen [] = []
collect_new seen (event_id ∷ rest) =
    let others = collect_new seen rest in
    let with_it = event_id ∷ collect_new (seen ++ event_id ∷ []) rest in
    if is_new event_id seen then with_it else others

-- One id a line.
unfoldable pub written : List Text → Text
written [] = []
written (i ∷ ids) = i ++ 10 ∷ written ids

-- `xs[-n:]`, which is the whole of `xs` at zero
unfoldable pub newest : ℕ → List Text → List Text
newest n xs = if eqb n 0 then xs else drop (length xs - n) xs

-- `"\n".join(xs) + "\n"`
unfoldable pub joined : List Text → Text
joined [] = 10 ∷ []
joined (i ∷ []) = i ++ 10 ∷ []
joined (i ∷ j ∷ ids) = i ++ 10 ∷ joined (j ∷ ids)

-- `_compact`
pub compact : ℕ → EventDedupStore → EventDedupStore
unfolding newest joined
compact max_ids s = record {
  file = some (joined (newest max_ids s.ids));
  ids = newest max_ids s.ids;
  seen = newest max_ids s.ids;
}

-- The ids are appended to the file and to the store.
pub append_ids : List Text → EventDedupStore → EventDedupStore
unfolding written
append_ids new s = record {
  file = some (contents s.file ++ written new);
  ids = s.ids ++ new;
  seen = s.seen ++ new;
}

abbrev pub compact_past : ℕ → EventDedupStore → EventDedupStore
compact_past max_ids s = if ltb max_ids (length s.ids) then compact max_ids s else s

-- `record_published`, where `max_ids` is EVENT_DEDUP_MAX_IDS
unfoldable pub record_published : ℕ → List Text → EventDedupStore → EventDedupStore
unfolding collect_new append_ids compact
record_published max_ids event_ids s =
    let new = collect_new s.seen event_ids in
    if is_empty new then s else compact_past max_ids (append_ids new s)
