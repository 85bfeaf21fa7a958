-- ===== src/Evolution/Change.antt =====
-- How a schema differs from its baseline: `classify_change` of src/fl_op/contracts/evolution.py.
pub mod Classes
pub mod Chains
use fl_op.Base.{
  ℕ, Option, none, some, Bool, true, false, ◌&&◌, ◌||◌, not, List, [], ◌∷◌, ◌++◌, Text, text_eq,
  codes, ◌==◌, is_some, if◌then◌else◌, leb,
}
use fl_op.Base.Dict.{Dict, get}

-- A field of a snapshot: the three keys that the comparison reads.
pub record FieldSpec : Type 0 where
  pub logical_type : Text
  pub physical_type : Text
  pub required : Bool

abbrev pub Fields : Type 0
Fields = Dict Text FieldSpec

-- In the order of the version bump that they ask for.
pub data ChangeClass : Type 0 where
  identical backward breaking : ChangeClass

-- The lines of `details`, by what they say.
pub data Detail : Type 0 where
  removed_field : Text → Detail
  -- the field, the key, its old and its new value
  type_changed : Text → Text → Text → Text → Detail
  required_changed : Text → Bool → Bool → Detail
  added_required : Text → Detail
  added_optional : Text → Detail

pub record ChangeReport : Type 0 where
  pub change_class : ChangeClass
  pub details : List Detail

-- The three locals of `classify_change`.
pub record Delta : Type 0 where
  pub details : List Detail
  pub breaking_found : Bool
  pub backward_found : Bool

abbrev pub quiet : Delta
quiet = record { details = []; breaking_found = false; backward_found = false }

-- One more line at the front.
abbrev pub note_breaking : Bool → Detail → Delta → Delta
note_breaking true line d = record d { details = line ∷ d.details; breaking_found = true }
note_breaking false line d = d

abbrev pub note_backward : Detail → Delta → Delta
note_backward line d = record d { details = line ∷ d.details; backward_found = true }

abbrev pub differs : Bool → Bool → Bool
differs true b = not b
differs false b = b

-- A field of the baseline against what the current schema has under its name, before the rest.
unfoldable pub compare_field : Text → FieldSpec → Option FieldSpec → Delta → Delta
compare_field name spec none d = note_breaking true (removed_field name) d
compare_field name spec (some current) d =
    note_breaking (not (current.logical_type == spec.logical_type))
      (type_changed name (codes "logicalType") spec.logical_type current.logical_type)
      (note_breaking (not (current.physical_type == spec.physical_type))
        (type_changed name (codes "physicalType") spec.physical_type current.physical_type)
        (note_breaking (differs current.required spec.required)
          (required_changed name spec.required current.required) d))

-- The second loop: fields that the baseline does not have.
unfoldable pub compare_added : Fields → Fields → Delta
compare_added baseline [] = quiet
compare_added baseline ((name, current) ∷ rest) =
    let d = compare_added baseline rest in
    if is_some (get name baseline)
    then d
    else if current.required
    then note_breaking true (added_required name) d
    else note_backward (added_optional name) d

-- The first loop, before what the second one finds.
unfoldable pub compare_baseline : Fields → Fields → Delta → Delta
unfolding compare_field
compare_baseline [] current d = d
compare_baseline ((name, spec) ∷ rest) current d =
    compare_field name spec (get name current) (compare_baseline rest current d)

unfoldable pub class_of : Delta → ChangeClass
class_of d = if d.breaking_found then breaking else if d.backward_found then backward else identical

unfoldable pub classify_change : Fields → Fields → ChangeReport
unfolding compare_baseline compare_added class_of
classify_change baseline current =
    let d = compare_baseline baseline current (compare_added baseline current) in
    record { change_class = class_of d; details = d.details }

-- `_max_change`
abbrev pub strictness : ChangeClass → ℕ
strictness identical = 0
strictness backward = 1
strictness breaking = 2

unfoldable pub max_change : ChangeClass → ChangeClass → ChangeClass
max_change left right = if leb (strictness right) (strictness left) then left else right
