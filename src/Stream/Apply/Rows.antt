-- ===== src/Stream/Apply/Rows.antt =====
-- Source rows and the tables that name their columns: `EventApplicator.__init__` and the resolution
-- helpers of src/fl_op/stream/apply.py.
use fl_op.Base.{
  ℕ, Option, none, some, or_else, is_some, Bool, false, not, List, [], ◌∷◌, ◌++◌, Text, text_eq,
  codes, contains, if◌then◌else◌, keep, ◌==◌,
}
use fl_op.Base.Dict.{Dict, get, put}
use fl_op.Base.Strip.{is_empty}

-- A value of a row or of a payload: `None`, a string, a float, or another value with its `str`, its
-- truth and its `float`, if it has one.
pub data Value (F : Type 0) : Type 0 where
  null : Value F
  text : Text → Value F
  number : F → Value F
  opaque : Text → Bool → Option F → Value F

-- What Python's floats, `datetime.fromisoformat` and the geometry of src/fl_op/core/geometry.py do.
pub record Host : Type 1 where
  pub Float : Type 0
  pub zero_f : Float
  pub one_f : Float
  pub mul : Float → Float → Float
  pub sub : Float → Float → Float
  pub div : Float → Float → Float
  pub lt : Float → Float → Bool
  pub le : Float → Float → Bool
  pub is_zero : Float → Bool
  pub round : Float → ℕ → Float
  pub parse_float : Text → Option Float
  pub show_float : Float → Text
  -- `COVERAGE_COMPLETE_FRACTION`, `WORK_PROGRESS_COMPLETE_PCT`
  pub complete_fraction : Float
  pub complete_pct : Float
  pub from_iso_format : Text → Option ℕ
  pub parse_polygon : Value Float → List (Float × Float)
  pub path_latlon : Value Float → List (Float × Float)
  pub swept_polygon : List (Float × Float) → Float → List (Float × Float)
  -- the area of the union of rings, in hectares
  pub rings_area_ha : List (List (Float × Float)) → Float

abbrev pub Row : Host → Type 0
Row h = Dict Text (Value h.Float)

abbrev pub Sources : Host → Type 0
Sources h = Dict Text (List (Row h))

-- What is read of a `BindingTable`: binding paths to columns, raw metric codes to canonical ones.
pub record Table : Type 0 where
  pub canonical_entity : Text
  pub entity_key_field : Option Text
  pub by_binding_path : Dict Text Text
  pub metric_codes : Dict Text Text

-- `_tables` and `_by_entity`
pub record Tables : Type 0 where
  pub tables : Dict Text Table
  pub by_entity : Dict Text (List Text)

-- One turn of the loop of `__init__`: a contract that has a mapping (with its table).
unfoldable pub register : Text × Option Table → Tables → Tables
register (cid, none) t = t
register (cid, some table) t = if is_empty table.canonical_entity then t else record {
  tables = put cid table t.tables;
  by_entity =
      put table.canonical_entity (or_else (get table.canonical_entity t.by_entity) [] ++ cid ∷ [])
        t.by_entity;
}

unfoldable pub register_all : List (Text × Option Table) → Tables → Tables
unfolding register
register_all [] t = t
register_all (entry ∷ entries) t = register_all entries (register entry t)

-- A value that Python takes for true: not `None` and not "".
abbrev pub usable_text : Option Text → Option Text
usable_text none = none
usable_text (some []) = none
usable_text (some (c ∷ s)) = some (c ∷ s)

-- `_contracts_for`
unfoldable pub contracts_for : {V : Type 0} → Tables → Text → Dict Text V → List Text
contracts_for t entity sources =
    keep (λ cid. is_some (get cid sources)) (or_else (get entity t.by_entity) [])

abbrev pub column : Tables → Text → Text → Option Text
column t path cid = go (get cid t.tables)
  where
    go : Option Table → Option Text
    go none = none
    go (some table) = get path table.by_binding_path

-- `_key_field`, where `if not key` follows each use
unfoldable pub key_field : Tables → Text → Option Text
key_field t cid = go (get cid t.tables)
  where
    go : Option Table → Option Text
    go none = none
    go (some table) = usable_text table.entity_key_field

-- `_status_field`, where `if not status` follows each use
unfoldable pub status_field : Tables → Text → Option Text
status_field t cid = usable_text (column t (codes "task.status") cid)

-- `_work_fields`
abbrev pub add_field : Option Text → List Text → List Text
add_field none fields = fields
add_field (some field) fields = if contains field fields then fields else fields ++ field ∷ []

unfoldable pub work_fields : Tables → Text → List Text
work_fields t cid =
    add_field (column t (codes "task.areaHa") cid)
      (add_field (column t (codes "task.workQuantity") cid) [])

-- `_area_field`
unfoldable pub area_field : Tables → Text → Option Text
area_field t cid = column t (codes "task.areaHa") cid

-- `_work_area_geometry_field`
unfoldable pub work_area_geometry_field : Tables → Text → Option Text
work_area_geometry_field t cid = column t (codes "task.workAreaGeometry") cid

module _ (h : Host) where
  -- `str(v)`
  unfoldable pub str_value : Value h.Float → Text
  str_value null = codes "None"
  str_value (text s) = s
  str_value (number x) = h.show_float x
  str_value (opaque s _ _) = s

  abbrev pub missing_as_null : Option (Value h.Float) → Value h.Float
  missing_as_null none = null
  missing_as_null (some v) = v

  -- `row.get(field)`
  abbrev pub row_get : Text → Row h → Value h.Float
  row_get field row = missing_as_null (get field row)

  -- `str(row.get(key)) == ref`
  unfoldable pub matches : Text → Text → Row h → Bool
  unfolding str_value
  matches key ref row = str_value (row_get key row) == ref

  -- `float(v)`, none for a `TypeError` or a `ValueError`
  unfoldable pub to_float : Value h.Float → Option h.Float
  to_float null = none
  to_float (text s) = h.parse_float s
  to_float (number x) = some x
  to_float (opaque _ _ f) = f

  -- `float(v or 0.0)`
  unfoldable pub to_float_or_zero : Value h.Float → Option h.Float
  to_float_or_zero null = some h.zero_f
  to_float_or_zero (text []) = some h.zero_f
  to_float_or_zero (text (c ∷ s)) = h.parse_float (c ∷ s)
  to_float_or_zero (number x) = some x
  to_float_or_zero (opaque _ truth f) = if truth then f else some h.zero_f

  -- `bool(v)`
  unfoldable pub truthy : Value h.Float → Bool
  truthy null = false
  truthy (text s) = not (is_empty s)
  truthy (number x) = not (h.is_zero x)
  truthy (opaque _ truth _) = truth

  -- The default of `d.get(field, 0.0)`
  abbrev pub get_or_zero : Text → Row h → Value h.Float
  get_or_zero field row = or_else (get field row) (number h.zero_f)

  -- `sources[cid] = f(sources[cid])`, for a contract that is there
  unfoldable pub adjust : Text → (List (Row h) → List (Row h)) → Sources h → Sources h
  adjust cid f [] = []
  adjust cid f ((j, rows) ∷ sources) =
      if j == cid then (j, f rows) ∷ sources else (j, rows) ∷ adjust cid f sources

  -- `for cid in contracts`, with what each does to its own rows
  unfoldable pub each : (Text → List (Row h) → List (Row h)) → List Text → Sources h → Sources h
  unfolding adjust
  each f [] sources = sources
  each f (cid ∷ cids) sources = each f cids (adjust cid (f cid) sources)

  -- `rows[i] = f(rows[i])` at the first row that matches, or none
  abbrev pub option_cons : Row h → Option (List (Row h)) → Option (List (Row h))
  option_cons row none = none
  option_cons row (some rows) = some (row ∷ rows)

  unfoldable pub replace_first :
      (Row h → Bool) → (Row h → Row h) → List (Row h) → Option (List (Row h))
  replace_first p f [] = none
  replace_first p f (row ∷ rows) =
      let rest = replace_first p f rows in
      if p row then some (f row ∷ rows) else option_cons row rest
