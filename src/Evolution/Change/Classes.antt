-- ===== src/Evolution/Change/Classes.antt =====
-- What the three classes mean: src/fl_op/contracts/evolution.py.
use fl_op.Base.{
  ◌∙◌, ◌≡◌, ◌≢◌, refl, ◌↔◌, Option, none, some, true, false, List, [], ◌∷◌, Text, text_eq, ◌==◌,
  ==_refl, is_some, arith, Distinct, contains, map, Bool-cases, inl, inr,
}
use fl_op.Base.Dict.{get}
use fl_op.Evolution.Change.{
  FieldSpec, Fields, identical, breaking, Delta, compare_field, compare_added, compare_baseline,
  class_of, classify_change,
}

-- Every field of the baseline is there, with the same types and the same requiredness.
abbrev pub Keeps : Fields → Fields → Type 0
Keeps baseline current =
    (name : Text) (spec : FieldSpec) → get name baseline ≡ some spec → get name current ≡ some spec

-- What the current schema adds is optional.
abbrev pub AddsOptional : Fields → Fields → Type 0
AddsOptional baseline current =
    (name : Text) (spec : FieldSpec)
    → get name current ≡ some spec
    → get name baseline ≡ none
    → spec.required ≡ false

-- Nothing is added.
abbrev pub AddsNothing : Fields → Fields → Type 0
AddsNothing baseline current =
    (name : Text) (spec : FieldSpec)
    → get name current ≡ some spec
    → is_some (get name baseline) ≡ true

abbrev pub names : Fields → List Text
names = map (λ (f : Text × FieldSpec). f.0)

-- A field passes without a line exactly if it is unchanged.
compare_field_breaking :
    (name : Text) (spec : FieldSpec) (current : Option FieldSpec) (d : Delta)
    → ((compare_field name spec current d).breaking_found ≡ false)
      ↔ ((current ≡ some spec) × (d.breaking_found ≡ false))
unfolding compare_field
compare_field_breaking name spec none d = ground arith
compare_field_breaking name spec (some c) d = (
  λ h. ground (
    arith,
    text_eq.agrees_iff c.logical_type spec.logical_type,
    text_eq.agrees_iff c.physical_type spec.physical_type,
  ),
  λ h. ground (
    arith,
    text_eq.agrees_iff c.logical_type spec.logical_type,
    text_eq.agrees_iff c.physical_type spec.physical_type,
  ),
)

compare_field_backward :
    (name : Text) (spec : FieldSpec) (current : Option FieldSpec) (d : Delta)
    → (compare_field name spec current d).backward_found ≡ d.backward_found
unfolding compare_field
compare_field_backward name spec none d = refl
compare_field_backward name spec (some c) d = ground arith

-- A key that is not among the names is not there.
get-absent : (name : Text) (fs : Fields) → contains name (names fs) ≡ false → get name fs ≡ none
unfolding get contains
get-absent name [] h = refl
get-absent name ((j, spec) ∷ rest) h =
    ground (arith, text_eq.agrees_iff j name, text_eq.agrees_iff name j, get-absent name rest)

-- Distinct keys, as a dict has them, make the first loop a statement about every field.
baseline_breaking :
    (baseline current : Fields) (d : Delta)
    → Distinct (names baseline)
    → ((compare_baseline baseline current d).breaking_found ≡ false)
      ↔ (Keeps baseline current × (d.breaking_found ≡ false))
unfolding compare_baseline get
baseline_breaking [] current d u = (λ h. ((λ n s e. cc), h), λ h. h.1)
baseline_breaking ((name, spec) ∷ rest) current d u =
    let field =
      compare_field_breaking name spec (get name current) (compare_baseline rest current d) in
    let ih = baseline_breaking rest current d u.1 in
    (
      λ h.
          let at = field.0 h in
          let below = ih.0 at.1 in
          (
            (λ n s e. elim (Bool-cases (name == n)) [
              | inl same ↦ ground (arith, text_eq.agrees_iff name n, at.0)
              | inr other ↦ ground (arith, below.0 n s)
            ]),
            below.1,
          ),
      λ h. field.1 (
        ground (arith, h.0 name spec, ==_refl name),
        ih.1 (
          (λ n s e. elim (Bool-cases (name == n)) [
            | inl same ↦ ground (arith, text_eq.agrees_iff name n, get-absent name rest u.0)
            | inr other ↦ ground (arith, h.0 n s)
          ]),
          h.1,
        ),
      ),
    )

baseline_backward :
    (baseline current : Fields) (d : Delta)
    → (compare_baseline baseline current d).backward_found ≡ d.backward_found
unfolding compare_baseline
baseline_backward [] current d = refl
baseline_backward ((name, spec) ∷ rest) current d =
    compare_field_backward name spec (get name current) (compare_baseline rest current d)
    ∙ baseline_backward rest current d

added_breaking :
    (baseline current : Fields)
    → Distinct (names current)
    → ((compare_added baseline current).breaking_found ≡ false) ↔ AddsOptional baseline current
unfolding compare_added get
added_breaking baseline [] u = (λ _ n s e. cc, λ _. refl)
added_breaking baseline ((name, c) ∷ rest) u =
    let ih = added_breaking baseline rest u.1 in
    (
      λ h n s e b. elim (Bool-cases (name == n)) [
        | inl same ↦ ground (arith, text_eq.agrees_iff name n)
        | inr other ↦ ih.0 (ground arith) n s (ground arith) b
      ],
      λ h.
          let below = ih.1 (λ n s e b. elim (Bool-cases (name == n)) [
            | inl same ↦ ground (arith, text_eq.agrees_iff name n, get-absent name rest u.0)
            | inr other ↦ ground (arith, h n s)
          ]) in
          ground (arith, h name c, ==_refl name, below),
    )

-- Without a breaking line, the second loop finds no optional field exactly if nothing is added.
added_backward :
    (baseline current : Fields)
    → Distinct (names current)
    → (compare_added baseline current).breaking_found ≡ false
    → ((compare_added baseline current).backward_found ≡ false) ↔ AddsNothing baseline current
unfolding compare_added get
added_backward baseline [] u q = (λ _ n s e. cc, λ _. refl)
added_backward baseline ((name, c) ∷ rest) u q =
    let ih = added_backward baseline rest u.1 in
    (
      λ h n s e. elim (Bool-cases (name == n)) [
        | inl same ↦ ground (arith, text_eq.agrees_iff name n)
        | inr other ↦ (ih (ground arith)).0 (ground arith) n s (ground arith)
      ],
      λ h.
          let below = λ (r : (compare_added baseline rest).breaking_found ≡ false).
            (ih r).1 (λ n s e. elim (Bool-cases (name == n)) [
              | inl same ↦ ground (arith, text_eq.agrees_iff name n, get-absent name rest u.0)
              | inr other ↦ ground (arith, h n s)
            ]) in
          ground (arith, h name c, ==_refl name, below),
    )

module _ (baseline current : Fields) (ub : Distinct (names baseline))
    (uc : Distinct (names current)) where
  -- Between two schemas whose field names are distinct, the class is not breaking exactly if
  -- every field of the baseline is kept unchanged and every added field is optional.
  pub classify_change_passes :
      ((classify_change baseline current).change_class ≢ breaking)
      ↔ (Keeps baseline current × AddsOptional baseline current)
  unfolding classify_change class_of
  classify_change_passes = (
    λ h. ground (
      arith,
      baseline_breaking baseline current (compare_added baseline current) ub,
      added_breaking baseline current uc,
    ),
    λ h. ground (
      arith,
      baseline_breaking baseline current (compare_added baseline current) ub,
      added_breaking baseline current uc,
    ),
  )

  -- Between two schemas whose field names are distinct, the class is identical exactly if every
  -- field of the baseline is kept unchanged and no field is added.
  classify_change_identical :
      ((classify_change baseline current).change_class ≡ identical)
      ↔ (Keeps baseline current × AddsNothing baseline current)
  unfolding classify_change class_of
  classify_change_identical = (
    λ h. ground (
      arith,
      baseline_breaking baseline current (compare_added baseline current) ub,
      baseline_backward baseline current (compare_added baseline current),
      added_backward baseline current uc,
    ),
    λ h.
        let kept = (added_breaking baseline current uc).1 (λ n s e b. ground (arith, h.1 n s)) in
        ground (
          arith,
          kept,
          baseline_breaking baseline current (compare_added baseline current) ub,
          baseline_backward baseline current (compare_added baseline current),
          added_backward baseline current uc,
        ),
  )
