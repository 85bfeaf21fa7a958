-- ===== src/Mapping/Tests.antt =====
-- Missing values on concrete fields: src/fl_op/mapping/policies.py.
use fl_op.Base.{◌≡◌, refl, none, some, text_eq, codes, ℕ}
use fl_op.Mapping.Policies.Traced.{IsTraced, policy-IsTraced}
use fl_op.Mapping.Policies.{Raw, string, other, impute, apply_missing_value_policy, Field}

abbrev float_zero : Raw ℕ
float_zero = other 0

abbrev float_one : Raw ℕ
float_one = other 1

abbrev field : Field
field = record {
  entity_ref = codes "t1";
  field_ref = codes "speed";
  quality_policy_ref = none;
  finding_seq = 0;
}

imputes_speed :
    (apply_missing_value_policy
      (other 0)
      (other 1)
      (string (codes "  "))
      (some impute)
      field
      (some (codes "speed"))).value
    ≡ float_one
unfolding apply_missing_value_policy
imputes_speed = refl

policy-IsTraced_example : IsTraced {A = ℕ} (string (codes "  ")) (some impute) (
    apply_missing_value_policy
      (other 0)
      (other 1)
      (string (codes "  "))
      (some impute)
      field
      (some (codes "speed")))
policy-IsTraced_example =
    policy-IsTraced float_zero float_one (string (codes "  ")) (some impute) field
      (some (codes "speed"))
