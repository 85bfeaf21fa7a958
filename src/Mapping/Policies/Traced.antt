-- ===== src/Mapping/Policies/Traced.antt =====
-- No value is imputed silently: src/fl_op/mapping/policies.py.
use fl_op.Base.{
  ◌≡◌, refl, ◌⊎◌, inl, inr, Option, none, some, Bool, true, false, Bool-cases, Text, text_eq,
}
use fl_op.Base.Dict.{Dict}
use fl_op.Mapping.Policies.{
  Raw, absent, MissingValuePolicy, reject_for_planning, fallback_to_conservative_value, impute,
  accept_optional, accept_with_warning, accept_with_penalty, quarantine, manual_review,
  QualityFinding, PolicyOutcome, Field, finding, missing_outcome, is_missing, conservative_fallback,
  apply_missing_value_policy,
}

-- What policies keep out of planning.
abbrev pub excludes : Option MissingValuePolicy → Bool
excludes none = true
excludes (some reject_for_planning) = true
excludes (some accept_with_penalty) = true
excludes (some quarantine) = true
excludes (some manual_review) = true
excludes (some _) = false

module _ {A : Type 0} where
  -- Without a finding nothing happened to the value, or it is optional.
  abbrev pub IsTraced : Raw A → Option MissingValuePolicy → PolicyOutcome A → Type 0
  IsTraced raw policy o = go o.finding
    where
      go : Option (QualityFinding A) → Type 0
      go none =
          (o.drop_entity ≡ false)
          × ((o.value ≡ raw) ⊎ ((policy ≡ some accept_optional) × (o.value ≡ absent)))
      go (some f) = (f.original_value ≡ raw) × (f.normalized_value ≡ o.value)

  missing_outcome-IsTraced :
      (fallbacks : Dict Text (Raw A)) (zero raw : Raw A) (policy : Option MissingValuePolicy)
      (field : Field) (kind : Option Text)
      → IsTraced raw policy (missing_outcome fallbacks zero raw policy field kind)
  unfolding missing_outcome finding
  missing_outcome-IsTraced fallbacks zero raw none field kind = (refl, refl)
  missing_outcome-IsTraced fallbacks zero raw (some reject_for_planning) field kind = (refl, refl)
  missing_outcome-IsTraced fallbacks zero raw (some accept_optional) field kind =
      (refl, inr (refl, refl))
  missing_outcome-IsTraced fallbacks zero raw (some accept_with_warning) field kind = (refl, refl)
  missing_outcome-IsTraced fallbacks zero raw (some fallback_to_conservative_value) field kind =
      (refl, refl)
  missing_outcome-IsTraced fallbacks zero raw (some impute) field kind = (refl, refl)
  missing_outcome-IsTraced fallbacks zero raw (some accept_with_penalty) field kind = (refl, refl)
  missing_outcome-IsTraced fallbacks zero raw (some quarantine) field kind = (refl, refl)
  missing_outcome-IsTraced fallbacks zero raw (some manual_review) field kind = (refl, refl)

  -- No value is changed and no entity dropped without a finding, except that an optional missing value
  -- becomes None; a finding names the raw value and the value that is passed on.
  pub policy-IsTraced :
      (zero one raw : Raw A) (policy : Option MissingValuePolicy) (field : Field)
      (kind : Option Text)
      → IsTraced raw policy (apply_missing_value_policy zero one raw policy field kind)
  unfolding apply_missing_value_policy
  policy-IsTraced zero one raw policy field kind = elim (Bool-cases (is_missing raw)) [
    | inl missing ↦
        rw missing
          (missing_outcome-IsTraced (conservative_fallback zero one) zero raw policy field kind)
    | inr given ↦ rw given (refl, inl refl)
  ]

  missing_outcome-drops :
      (fallbacks : Dict Text (Raw A)) (zero raw : Raw A) (policy : Option MissingValuePolicy)
      (field : Field) (kind : Option Text)
      → (missing_outcome fallbacks zero raw policy field kind).drop_entity ≡ excludes policy
  unfolding missing_outcome
  missing_outcome-drops fallbacks zero raw none field kind = refl
  missing_outcome-drops fallbacks zero raw (some reject_for_planning) field kind = refl
  missing_outcome-drops fallbacks zero raw (some accept_optional) field kind = refl
  missing_outcome-drops fallbacks zero raw (some accept_with_warning) field kind = refl
  missing_outcome-drops fallbacks zero raw (some fallback_to_conservative_value) field kind = refl
  missing_outcome-drops fallbacks zero raw (some impute) field kind = refl
  missing_outcome-drops fallbacks zero raw (some accept_with_penalty) field kind = refl
  missing_outcome-drops fallbacks zero raw (some quarantine) field kind = refl
  missing_outcome-drops fallbacks zero raw (some manual_review) field kind = refl
