-- ===== src/Solver/Allocation/Model.antt =====
-- The data of src/fl_op/solver/allocation and the numbers that its scores are made of.
use fl_op.Base.{
  ℕ, ◌+◌, ◌-◌, ◌/◌, min, max, Option, or_else, Bool, true, false, ◌&&◌, ◌||◌, List, [], ◌∷◌, Text,
  text_eq, contains, if◌then◌else◌, ltb, eqb,
}
use fl_op.Base.Dict.{Dict, get}

-- Floats: what the scores need of them, `_URGENCY_SCORE_WEIGHT` and `_POWER_MARGIN_TIEBREAKER_WEIGHT`.
pub record Scores : Type 1 where
  pub Score : Type 0
  pub zero_s : Score
  pub one_s : Score
  pub add : Score → Score → Score
  pub mul : Score → Score → Score
  pub lt : Score → Score → Bool
  pub urgency_weight : Score
  pub tiebreaker_weight : Score

-- What allocation reads of an order, with `penalty_per_day` as a float where it has one.
pub record Order (s : Scores) : Type 0 where
  pub task_id : Text
  pub operation_type : Text
  pub penalty_per_day : Option s.Score

pub record Operator : Type 0 where
  pub asset_id : Text
  pub home_depot_ref : Text
  pub certified_operations : List Text

-- `ClusterSpec`, the two keys that allocation writes included.
pub record Cluster (s : Scores) : Type 0 where
  pub cluster_id : Text
  pub depot_ref : Text
  pub task_ids : List Text
  pub total_penalty_per_day : s.Score
  pub operator_ref : Option Text
  pub allocated : Dict Text (List Text)

pub record AllocationState : Type 0 where
  pub claimed_implements : List Text
  pub claimed_operators : List Text
  pub vehicle_assignment_count : Dict Text ℕ

abbrev pub max_vehicle_assignments : ℕ
max_vehicle_assignments = 2

-- `cluster_resource_limit`, with the three constants of src/fl_op/core/constants.py.
pub record Limits : Type 0 where
  pub orders_per_resource : ℕ
  pub min_resources : ℕ
  pub max_pairs_per_order : ℕ

unfoldable pub cluster_resource_limit : Limits → ℕ → ℕ
cluster_resource_limit l n =
    let desired = (n + (l.orders_per_resource - 1)) / l.orders_per_resource in
    min n (min l.max_pairs_per_order (if ltb 1 n then max desired l.min_resources else desired))

-- `a < b` on strings
unfoldable pub text_lt : Text → Text → Bool
text_lt [] [] = false
text_lt [] (d ∷ t) = true
text_lt (c ∷ s) [] = false
text_lt (c ∷ s) (d ∷ t) = let later = text_lt s t in ltb c d || eqb c d && later

-- `sorted`, which keeps the order of what is equal; `before a b` is `key(a) < key(b)`.
unfoldable pub insert_by {ℓ} : {A : Type ℓ} → (A → A → Bool) → A → List A → List A
insert_by before a [] = a ∷ []
insert_by before a (b ∷ bs) =
    let later = insert_by before a bs in if before b a then b ∷ later else a ∷ b ∷ bs

unfoldable pub sorted_by {ℓ} : {A : Type ℓ} → (A → A → Bool) → List A → List A
unfolding insert_by
sorted_by before [] = []
sorted_by before (a ∷ rest) = insert_by before a (sorted_by before rest)

-- `s.add(a)`
unfoldable pub set_add : Text → List Text → List Text
set_add a s = if contains a s then s else a ∷ s

abbrev pub count_of : Text → Dict Text ℕ → ℕ
count_of vehicle_id counts = or_else (get vehicle_id counts) 0
