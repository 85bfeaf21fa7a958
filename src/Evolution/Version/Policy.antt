-- ===== src/Evolution/Version/Policy.antt =====
-- What the bump policy of src/fl_op/contracts/evolution.py accepts.
use fl_op.Base.{◌≡◌, ◌↔◌, ◌⊎◌, ◌<◌, false, [], Text, arith}
use fl_op.Evolution.Change.{ChangeClass, identical, backward, breaking}
use fl_op.Evolution.Version.{Version, parse_version, version_lt, bump_errors, version_policy_errors}

-- The bump that each class of change needs.
abbrev pub Suffices : ChangeClass → Version → Version → Type 0
Suffices identical old new = version_lt new old ≡ false
Suffices backward old new =
    (old.major < new.major) ⊎ ((old.major ≡ new.major) × (old.minor < new.minor))
Suffices breaking old new = old.major < new.major

-- The policy on parsed versions.
bump_errors_iff :
    (old new : Version) (change : ChangeClass)
    → (bump_errors old new change ≡ []) ↔ Suffices change old new
unfolding bump_errors version_lt
bump_errors_iff old new identical = (λ h. ground arith, λ h. ground arith)
bump_errors_iff old new backward = (λ h. ground arith, λ h. ground arith)
bump_errors_iff old new breaking = (λ h. ground arith, λ h. ground arith)

-- The policy accepts a pair of version texts without an error exactly if the parsed versions
-- have the bump of the change's class: none going backwards for an identical schema, at least a
-- minor one for a backward-compatible change, a major one for a breaking change.
pub version_policy_errors_iff :
    (baseline_version current_version : Text) (change : ChangeClass)
    → (version_policy_errors baseline_version current_version change ≡ [])
      ↔ Suffices change (parse_version baseline_version) (parse_version current_version)
unfolding version_policy_errors
version_policy_errors_iff b c change = bump_errors_iff (parse_version b) (parse_version c) change
