-- ===== src/Evolution/Version.antt =====
-- The version bump that a change asks for: `_parse_version` and `version_policy_errors` of
-- src/fl_op/contracts/evolution.py.
pub mod Policy
use fl_op.Base.{
  ℕ, ◌+◌, ◌*◌, ◌-◌, Bool, true, false, ◌&&◌, ◌||◌, not, List, [], ◌∷◌, Text, if◌then◌else◌, leb,
  ltb, eqb,
}
use fl_op.Base.Strip.{split_on}
use fl_op.Evolution.Change.{ChangeClass, identical, backward, breaking}

-- A `(major, minor, patch)` tuple.
pub record Version : Type 0 where
  pub major : ℕ
  pub minor : ℕ
  pub patch : ℕ

-- The part's ASCII digits as a number, the rest of it dropped; no digit is 0. (Python's `isdigit`
-- takes other scripts' digits too; a version text has none.)
unfoldable pub digits_value : ℕ → Text → ℕ
digits_value acc [] = acc
digits_value acc (c ∷ part) =
    if leb 48 c && leb c 57 then digits_value (acc * 10 + (c - 48)) part else digits_value acc part

-- The first three parts, padded with zeros.
unfoldable pub pad_parts : List Text → Version
unfolding digits_value
pad_parts [] = record { major = 0; minor = 0; patch = 0 }
pad_parts (a ∷ []) = record { major = digits_value 0 a; minor = 0; patch = 0 }
pad_parts (a ∷ b ∷ []) = record { major = digits_value 0 a; minor = digits_value 0 b; patch = 0 }
pad_parts (a ∷ b ∷ c ∷ _) = record {
  major = digits_value 0 a;
  minor = digits_value 0 b;
  patch = digits_value 0 c;
}

unfoldable pub parse_version : Text → Version
unfolding pad_parts split_on
parse_version text = pad_parts (split_on 46 text)

-- `new < old` on the tuples.
unfoldable pub version_lt : Version → Version → Bool
version_lt a b =
    ltb a.major b.major
    || eqb a.major b.major && (ltb a.minor b.minor || eqb a.minor b.minor && ltb a.patch b.patch)

-- The message of the one error, by what it says.
pub data VersionError : Type 0 where
  went_backwards not_bumped needs_major needs_minor : VersionError

abbrev pub is_breaking : ChangeClass → Bool
is_breaking breaking = true
is_breaking _ = false

abbrev pub is_backward : ChangeClass → Bool
is_backward backward = true
is_backward _ = false

abbrev pub is_identical : ChangeClass → Bool
is_identical identical = true
is_identical _ = false

unfoldable pub bump_errors : Version → Version → ChangeClass → List VersionError
unfolding version_lt
bump_errors old new change =
    if is_identical change
    then (if version_lt new old then went_backwards ∷ [] else [])
    else if not (version_lt old new)
    then not_bumped ∷ []
    else if is_breaking change && leb new.major old.major
    then needs_major ∷ []
    else if is_backward change && eqb new.major old.major && leb new.minor old.minor
    then needs_minor ∷ []
    else []

unfoldable pub version_policy_errors : Text → Text → ChangeClass → List VersionError
unfolding parse_version bump_errors
version_policy_errors baseline_version current_version change =
    bump_errors (parse_version baseline_version) (parse_version current_version) change
