-- ===== src/Solver/Materials/Tests.antt =====
-- Instances of the properties of material limits, with natural numbers for floats.
use fl_op.Base.{
  ℕ, ◌-◌, ◌*◌, some, List, [], ◌∷◌, Text, text_eq, codes, contains, ltb, leb, map, ◌≡◌, refl,
}
use fl_op.Base.Dict.{Dict, get, put}
use fl_op.Base.Strip.{strip}
use fl_op.Solver.Allocation.Model.{sorted_by}
use fl_op.Solver.Operators.{ClusterSpec}
use fl_op.Solver.Materials.{
  Amounts, MaterialTask, MaterialDepot, MaterialDemand, apply_material_limits, charge_clusters,
  charge_cluster, charge_all, charge_one, partition_tasks, area_ha_for_material, inventory,
}
use fl_op.Solver.Materials.Covered.{IsLedger, apply_material_limits-IsLedger}

abbrev whole : Amounts
whole = record {
  Float = ℕ;
  zero_f = 0;
  sub = λ a b. a - b;
  times = λ a b. a * b;
  le = leb;
  gt = λ a b. ltb b a;
  round_2 = λ a. a;
  Raw = ℕ;
  to_float = λ n. some n;
  lower = λ s. s;
}

abbrev field : ℕ → ℕ → Text → MaterialTask whole
field penalty area task_id = record {
  task_id = task_id;
  operation_type = codes "SPRAY";
  penalty_per_day = penalty;
  area = area;
  work_quantity = 0;
  work_quantity_unit = [];
}

abbrev fields : Dict Text (MaterialTask whole)
fields =
    (codes "a", field 1 4 (codes "a"))
    ∷ (codes "b", field 9 3 (codes "b"))
    ∷ (codes "c", field 5 0 (codes "c"))
    ∷ []

abbrev demands : Dict Text (MaterialDemand whole)
demands = (codes "SPRAY", record { material = codes "lime"; per_area_ha = 2 }) ∷ []

abbrev depots : List (MaterialDepot whole)
depots = record { location_id = codes "d"; inventory_material = 10 } ∷ []

abbrev clusters : List ClusterSpec
clusters =
    record {
      cluster_id = codes "c1";
      depot_ref = codes "d";
      operator_ref = [];
      allocated_prime_related = [];
      task_ids = codes "a" ∷ codes "b" ∷ codes "c" ∷ codes "x" ∷ [];
      task_operators = [];
      shared_backup_operators = [];
    }
    ∷ []

-- The task with the higher penalty is served first, and the other finds too little left.
apply_material_limits_test :
    let (kept, after) = apply_material_limits whole clusters fields depots demands in
    (map (λ (c : ClusterSpec). c.task_ids) kept ≡ (codes "b" ∷ codes "c" ∷ codes "x" ∷ []) ∷ [])
    × (after.infeasible ≡ (codes "a", codes "c1") ∷ [])
    × (after.remaining ≡ (codes "d", 4) ∷ [])
unfolding apply_material_limits charge_clusters charge_cluster charge_all charge_one partition_tasks
    area_ha_for_material inventory sorted_by get put contains strip
apply_material_limits_test = (refl, refl, refl)

apply_material_limits-IsLedger_example :
    let after = (apply_material_limits whole clusters fields depots demands).1 in
    IsLedger whole (inventory whole depots []) after.reservations after.remaining
apply_material_limits-IsLedger_example =
    apply_material_limits-IsLedger whole clusters fields depots demands
