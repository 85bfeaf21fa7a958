-- ===== src/Mapping/Policies.antt =====
-- Missing values: `apply_missing_value_policy` of src/fl_op/mapping/policies.py.
pub mod Traced
use fl_op.Base.{
  ◌≡◌, ◌≢◌, refl, ◌↔◌, ◌⊎◌, inl, inr, Option, none, some, or_else, Bool, true, false, List, [], ◌∷◌,
  ◌++◌, Text, text_eq, codes, is_some, if◌then◌else◌, ℕ, arith, Bool-cases,
}
use fl_op.Base.Dict.{Dict, get}
use fl_op.Base.Strip.{strip, is_empty}

-- A raw value: `None`, a string, or another value of the type `A`.
pub data Raw (A : Type 0) : Type 0 where
  absent : Raw A
  string : Text → Raw A
  other : A → Raw A

pub data MissingValuePolicy : Type 0 where
  reject_for_planning fallback_to_conservative_value impute accept_optional : MissingValuePolicy
  accept_with_warning accept_with_penalty quarantine manual_review : MissingValuePolicy

pub data QualitySeverity : Type 0 where
  info warning error : QualitySeverity

-- The fields of a `QualityFinding` that depend on the policy, with the parts of its id.
pub record QualityFinding (A : Type 0) : Type 0 where
  pub rule_id : Text
  pub severity : QualitySeverity
  pub entity_ref : Text
  pub field_ref : Text
  pub finding_seq : ℕ
  pub action_applied : Text
  pub original_value : Raw A
  pub normalized_value : Raw A

pub record PolicyOutcome (A : Type 0) : Type 0 where
  pub value : Raw A
  pub drop_entity : Bool
  pub finding : Option (QualityFinding A)

-- `policy.value`
abbrev pub policy_value : MissingValuePolicy → Text
policy_value reject_for_planning = codes "reject-for-planning"
policy_value fallback_to_conservative_value = codes "fallback-to-conservative-value"
policy_value impute = codes "impute"
policy_value accept_optional = codes "accept-optional"
policy_value accept_with_warning = codes "accept-with-warning"
policy_value accept_with_penalty = codes "accept-with-penalty"
policy_value quarantine = codes "quarantine"
policy_value manual_review = codes "manual-review"

-- What the caller says of the field besides its policy.
pub record Field : Type 0 where
  pub entity_ref : Text
  pub field_ref : Text
  pub quality_policy_ref : Option Text
  pub finding_seq : ℕ

-- `quality_policy_ref or "dq://default/missing-value"`
abbrev pub rule_of : Option Text → Text
rule_of none = codes "dq://default/missing-value"
rule_of (some []) = codes "dq://default/missing-value"
rule_of (some (c ∷ s)) = c ∷ s

module _ {A : Type 0} where
  -- `_is_missing`
  unfoldable pub is_missing : Raw A → Bool
  unfolding strip
  is_missing absent = true
  is_missing (string s) = is_empty (strip s)
  is_missing (other a) = false

  unfoldable pub finding : Field → Raw A → QualitySeverity → Text → Raw A → QualityFinding A
  finding field raw severity action normalized = record {
    rule_id = rule_of field.quality_policy_ref;
    severity = severity;
    entity_ref = field.entity_ref;
    field_ref = field.field_ref;
    finding_seq = field.finding_seq;
    action_applied = action;
    original_value = raw;
    normalized_value = normalized;
  }

  -- An outcome with a finding on the value it passes on.
  abbrev pub outcome : Field → Raw A → QualitySeverity → Text → Raw A → Bool → PolicyOutcome A
  outcome field raw severity action value drops = record {
    value = value;
    drop_entity = drops;
    finding = some (finding field raw severity action value);
  }

  unfoldable pub missing_outcome :
      Dict Text (Raw A)
      → Raw A
      → Raw A
      → Option MissingValuePolicy
      → Field
      → Option Text
      → PolicyOutcome A
  unfolding finding get
  missing_outcome fallbacks zero raw none field kind =
      outcome field raw error (codes "reject-for-planning") absent true
  missing_outcome fallbacks zero raw (some reject_for_planning) field kind =
      outcome field raw error (codes "reject-for-planning") absent true
  missing_outcome fallbacks zero raw (some accept_optional) field kind = record {
    value = absent;
    drop_entity = false;
    finding = none;
  }
  missing_outcome fallbacks zero raw (some accept_with_warning) field kind =
      outcome field raw warning (codes "accept-with-warning") absent false
  missing_outcome fallbacks zero raw (some fallback_to_conservative_value) field kind =
      outcome field raw info (codes "fallback-to-conservative-value")
        (or_else (get (or_else kind []) fallbacks) zero) false
  missing_outcome fallbacks zero raw (some impute) field kind =
      outcome field raw info (codes "impute") (or_else (get (or_else kind []) fallbacks) zero) false
  missing_outcome fallbacks zero raw (some accept_with_penalty) field kind =
      outcome field raw warning (policy_value accept_with_penalty) absent true
  missing_outcome fallbacks zero raw (some quarantine) field kind =
      outcome field raw warning (policy_value quarantine) absent true
  missing_outcome fallbacks zero raw (some manual_review) field kind =
      outcome field raw warning (policy_value manual_review) absent true

  -- `_CONSERVATIVE_FALLBACK`, over the floats 0.0 and 1.0
  unfoldable pub conservative_fallback : Raw A → Raw A → Dict Text (Raw A)
  conservative_fallback zero one =
      (codes "power", zero)
      ∷ (codes "mass", zero)
      ∷ (codes "volume", zero)
      ∷ (codes "money", zero)
      ∷ (codes "speed", one)
      ∷ (codes "area", zero)
      ∷ (codes "flow-rate", zero)
      ∷ []

  unfoldable pub apply_missing_value_policy :
      Raw A → Raw A → Raw A → Option MissingValuePolicy → Field → Option Text → PolicyOutcome A
  unfolding is_missing missing_outcome conservative_fallback
  apply_missing_value_policy zero one raw policy field kind =
      if is_missing raw
      then missing_outcome (conservative_fallback zero one) zero raw policy field kind
      else record { value = raw; drop_entity = false; finding = none }
