-- ===== src/Evolution/Change/Chains.antt =====
-- Compatibility over several releases: `classify_change` of src/fl_op/contracts/evolution.py.
use fl_op.Base.{inr, inl, Option-cases, ◌≢◌, text_eq, arith, Distinct}
use fl_op.Base.Dict.{get}
use fl_op.Evolution.Change.{Fields, breaking, classify_change}
use fl_op.Evolution.Change.Classes.{Keeps, AddsOptional, names, classify_change_passes}

Keeps-trans : (a b c : Fields) → Keeps a b → Keeps b c → Keeps a c
Keeps-trans a b c ab bc name spec e = bc name spec (ab name spec e)

AddsOptional-trans :
    (a b c : Fields) → AddsOptional a b → Keeps b c → AddsOptional b c → AddsOptional a c
AddsOptional-trans a b c ab kept bc name spec e missing = elim (Option-cases (get name b)) [
  | inl absent ↦ bc name spec e absent
  | inr found ↦ ground (arith, kept name found.0 found.1, ab name found.0 found.1)
]

-- For schemas of distinct field names, two releases that are not breaking make a change from the
-- first schema to the third that is not breaking either.
pub compatible_chain :
    (a b c : Fields)
    → Distinct (names a)
    → Distinct (names b)
    → Distinct (names c)
    → (classify_change a b).change_class ≢ breaking
    → (classify_change b c).change_class ≢ breaking
    → (classify_change a c).change_class ≢ breaking
compatible_chain a b c ua ub uc ab bc =
    let first = (classify_change_passes a b ua ub).0 ab in
    let second = (classify_change_passes b c ub uc).0 bc in
    (classify_change_passes a c ua uc).1
      (Keeps-trans a b c first.0 second.0, AddsOptional-trans a b c first.1 second.0 second.1)
