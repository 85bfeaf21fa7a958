-- ===== src/Solver/Allocation/Tests.antt =====
-- Allocation of a few resources: src/fl_op/solver/allocation.
use fl_op.Base.Dict.{put}
use fl_op.Base.{contains}
use fl_op.Base.{
  ◌≡◌, refl, ℕ, ◌+◌, ◌*◌, ◌≤◌, none, List, [], ◌∷◌, Text, text_eq, codes, ltb, Distinct,
}
use fl_op.Base.Dict.{get}
use fl_op.Solver.Allocation.Model.{
  Scores, Order, Operator, Cluster, Limits, max_vehicle_assignments,
}
use fl_op.Solver.Allocation.Candidates.{Lookups}
use fl_op.Solver.Allocation.Greedy.{allocate_resources_greedy}
use fl_op.Solver.Allocation.Claims.{
  all_implements, all_operators, uses, greedy_implements-Distinct, greedy_vehicle_uses,
}
use fl_op.Solver.Allocation.Crews.{greedy_operators-Distinct}

abbrev points : Scores
points = record {
  Score = ℕ;
  zero_s = 0;
  one_s = 1;
  add = λ a b. a + b;
  mul = λ a b. a * b;
  lt = ltb;
  urgency_weight = 1;
  tiebreaker_weight = 1;
}

abbrev lookups : Lookups points
lookups = record {
  scored = none;
  free_capacity = [];
  power_margin = λ v i. v + i;
  feasible_pairs =
      (codes "a", (0, 0) ∷ (0, 1) ∷ [])
      ∷ (codes "b", (0, 1) ∷ [])
      ∷ (codes "c", (0, 1) ∷ (0, 0) ∷ [])
      ∷ [];
  idx_to_vehicle = (0, codes "V") ∷ [];
  idx_to_implement = (0, codes "I") ∷ (1, codes "J") ∷ [];
}

abbrev limits : Limits
limits = record { orders_per_resource = 5; min_resources = 2; max_pairs_per_order = 5 }

abbrev order : Text → Order points
order id = record { task_id = id; operation_type = codes "sow"; penalty_per_day = none }

abbrev cluster : Text → List Text → ℕ → Cluster points
cluster id tasks penalty = record {
  cluster_id = id;
  depot_ref = codes "d";
  task_ids = tasks;
  total_penalty_per_day = penalty;
  operator_ref = none;
  allocated = [];
}

abbrev clusters : List (Cluster points)
clusters =
    cluster (codes "k1") (codes "a" ∷ []) 1
    ∷ cluster (codes "k2") (codes "b" ∷ codes "c" ∷ []) 4
    ∷ cluster (codes "k3") (codes "c" ∷ []) 0
    ∷ []

abbrev orders : List (Order points)
orders = order (codes "a") ∷ order (codes "b") ∷ order (codes "c") ∷ []

abbrev operators : List Operator
operators =
    record { asset_id = codes "o1"; home_depot_ref = codes "d"; certified_operations = [] }
    ∷ record {
      asset_id = codes "o2";
      home_depot_ref = codes "e";
      certified_operations = codes "sow" ∷ [];
    }
    ∷ []

-- The vehicle goes to two clusters, with one implement each, and not to the third.
uses_both :
    uses points
      (codes "V")
      (allocate_resources_greedy points lookups limits clusters orders operators)
    ≡ 2
unfolding allocate_resources_greedy contains get put
uses_both = refl

crews :
    all_operators points (allocate_resources_greedy points lookups limits clusters orders operators)
    ≡ codes "o1" ∷ codes "o2" ∷ []
unfolding allocate_resources_greedy get put contains
crews = refl

implements_given :
    all_implements points
      (allocate_resources_greedy points lookups limits clusters orders operators)
    ≡ codes "J" ∷ codes "I" ∷ []
unfolding allocate_resources_greedy get put contains
implements_given = refl

greedy_implements-Distinct_example : Distinct (
    all_implements points
      (allocate_resources_greedy points lookups limits clusters orders operators))
greedy_implements-Distinct_example =
    greedy_implements-Distinct points lookups limits clusters orders operators

greedy_vehicle_uses_example :
    uses points
      (codes "V")
      (allocate_resources_greedy points lookups limits clusters orders operators)
    ≤ max_vehicle_assignments
greedy_vehicle_uses_example =
    greedy_vehicle_uses points lookups limits (codes "V") clusters orders operators

greedy_operators-Distinct_example : Distinct (
    all_operators points
      (allocate_resources_greedy points lookups limits clusters orders operators))
greedy_operators-Distinct_example =
    greedy_operators-Distinct points lookups limits clusters orders operators
      (refl, (refl, (refl, tt)))
