-- ===== src/Solver/Conflict.antt =====
-- The binding resource of dropped tasks: src/fl_op/solver/cluster/conflict.py.
pub mod Attribution
mod Tests
use fl_op.Base.{
  ℕ, Option, none, some, Bool, true, false, ◌&&◌, ◌||◌, not, List, [], ◌∷◌, Text, codes,
  if◌then◌else◌, ltb, eqb, map, ◌++◌,
}
use fl_op.Base.Dict.{Dict}
use fl_op.Base.Strip.{is_empty}
use fl_op.Solver.Allocation.Model.{text_lt, sorted_by}

-- Floats: utilizations and their order.
pub record Utilizations : Type 1 where
  pub Float : Type 0
  pub zero_f : Float
  pub one_f : Float
  pub ratio : ℕ → ℕ → Float
  pub lt : Float → Float → Bool
  pub le : Float → Float → Bool
  pub round : Float → ℕ → Float

-- `binding_resource`
pub data Binding : Type 0 where
  nothing_binds capacity_unnamed time fleet other solve_budget model_infeasible : Binding
  capacity_of : Text → Binding

module _ (u : Utilizations) where
  -- `max(a, b)`, which keeps the first of equals
  abbrev pub max_f : u.Float → u.Float → u.Float
  max_f a b = if u.lt a b then b else a

  -- `max(sorted(d), key=…)`: the first of the fullest, by name
  unfoldable pub fullest : Text × u.Float → Dict Text u.Float → Text × u.Float
  fullest best [] = best
  fullest best (c ∷ d) = fullest (if u.lt best.1 c.1 then c else best) d

  abbrev pub by_name : Text × u.Float → Text × u.Float → Bool
  by_name (m, f) (n, g) = text_lt m n

  abbrev pub first_of : Dict Text u.Float → Text × u.Float
  first_of [] = ([], u.zero_f)
  first_of (best ∷ d) = fullest best d

  -- `_peak_capacity`
  unfoldable pub peak_capacity : Dict Text u.Float → Text × u.Float
  unfolding fullest sorted_by text_lt
  peak_capacity utilization = first_of (sorted_by by_name utilization)

pub record Conflict (u : Utilizations) : Type 0 where
  pub binding_resource : Binding
  pub binding_utilization : u.Float
  pub tight_threshold : u.Float
  pub n_unserved : ℕ
  pub vehicle_utilization : u.Float
  pub time_utilization : u.Float
  pub capacity_utilization : Dict Text u.Float

module _ (u : Utilizations) where
  unfoldable pub vehicle_utilization_of : ℕ → ℕ → u.Float
  vehicle_utilization_of used n = if eqb n 0 then u.zero_f else u.ratio used n

  abbrev pub capacity_binding : Text → Binding
  capacity_binding [] = capacity_unnamed
  capacity_binding (c ∷ s) = capacity_of (c ∷ s)

  -- The chain of tests of `build_resource_conflict`, at the vehicle and the peak utilization.
  unfoldable pub attribute : ℕ → u.Float → u.Float → Text × u.Float → u.Float → Binding × u.Float
  attribute n_unserved vehicle time_used (material, peak) threshold =
      if eqb n_unserved 0
      then (nothing_binds, u.zero_f)
      else if u.le threshold peak
      then (capacity_binding material, peak)
      else if u.le threshold time_used
      then (time, time_used)
      else if u.le u.one_f vehicle
      then (fleet, vehicle)
      else (other, max_f u (max_f u peak time_used) vehicle)

  unfoldable pub build_resource_conflict :
      ℕ → ℕ → ℕ → u.Float → Dict Text u.Float → u.Float → Conflict u
  unfolding vehicle_utilization_of peak_capacity attribute sorted_by text_lt
  build_resource_conflict n_unserved n_vehicles n_used time_used capacity threshold =
      let vehicle = vehicle_utilization_of n_used n_vehicles in
      let (binding, utilization) =
        attribute n_unserved vehicle time_used (peak_capacity u capacity) threshold in
      record {
        binding_resource = binding;
        binding_utilization = u.round utilization 3;
        tight_threshold = threshold;
        n_unserved = n_unserved;
        vehicle_utilization = u.round vehicle 3;
        time_utilization = u.round time_used 3;
        capacity_utilization =
            map (λ (c : Text × u.Float). (c.0, u.round c.1 3)) (sorted_by (by_name u) capacity);
      }

-- `no_solution_conflict`
unfoldable pub no_solution_conflict : Bool → ℕ → Binding × ℕ
no_solution_conflict hit_time_limit n_unserved =
    (if hit_time_limit then solve_budget else model_infeasible, n_unserved)
