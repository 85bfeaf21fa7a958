-- ===== src/Evolution/Tests.antt =====
-- Schema changes and versions on concrete inputs: src/fl_op/contracts/evolution.py.
use fl_op.Base.Dict.{get}
use fl_op.Base.{
  Distinct, contains, ap, ◌≡◌, ◌≢◌, refl, ◌↔◌, text_eq, [], ◌∷◌, Text, codes, Bool, true, false,
  arith,
}
use fl_op.Evolution.Change.{
  FieldSpec, Fields, ChangeClass, backward, breaking, classify_change, strictness,
}
use fl_op.Evolution.Change.Classes.{names, Keeps, AddsOptional, classify_change_passes}
use fl_op.Evolution.Change.Chains.{compatible_chain}
use fl_op.Evolution.Version.{parse_version, version_policy_errors}
use fl_op.Evolution.Version.Policy.{Suffices, version_policy_errors_iff}

abbrev field : Text → Bool → FieldSpec
field type needed = record { logical_type = type; physical_type = type; required = needed }

abbrev first : Fields
first = (codes "id", field (codes "string") true) ∷ []

abbrev second : Fields
second =
    (codes "id", field (codes "string") true) ∷ (codes "note", field (codes "string") false) ∷ []

abbrev third : Fields
third =
    (codes "id", field (codes "string") true)
    ∷ (codes "note", field (codes "string") false)
    ∷ (codes "area", field (codes "number") false)
    ∷ []

Distinct-first : Distinct (names first)
unfolding contains
Distinct-first = (refl, tt)

Distinct-second : Distinct (names second)
unfolding contains
Distinct-second = (refl, (refl, tt))

Distinct-third : Distinct (names third)
unfolding contains
Distinct-third = (refl, (refl, (refl, tt)))

class_one : (classify_change first second).change_class ≡ backward
unfolding classify_change get
class_one = refl

class_two : (classify_change second third).change_class ≡ backward
unfolding classify_change get
class_two = refl

backward_lem : (k : ChangeClass) → k ≡ backward → k ≢ breaking
backward_lem k e b = ground (arith, ap strictness e, ap strictness b)

compatible_chain_example : (classify_change first third).change_class ≢ breaking
compatible_chain_example =
    compatible_chain first second third Distinct-first Distinct-second Distinct-third
      (backward_lem _ class_one) (backward_lem _ class_two)

classify_change_passes_example :
    ((classify_change first second).change_class ≢ breaking)
    ↔ (Keeps first second × AddsOptional first second)
classify_change_passes_example = classify_change_passes first second Distinct-first Distinct-second

version_policy_errors_iff_example :
    (version_policy_errors (codes "1.2.0") (codes "1.10.0") backward ≡ [])
    ↔ Suffices backward (parse_version (codes "1.2.0")) (parse_version (codes "1.10.0"))
version_policy_errors_iff_example =
    version_policy_errors_iff (codes "1.2.0") (codes "1.10.0") backward

bump_of_minor : version_policy_errors (codes "1.2.0") (codes "1.10.0") backward ≡ []
unfolding version_policy_errors
bump_of_minor = refl
