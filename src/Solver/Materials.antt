-- ===== src/Solver/Materials.antt =====
-- Material limits: `apply_material_limits` and `finalize_material_reservations` of
-- src/fl_op/solver/enforcement.py with what they call. Floats are a parameter.
pub mod Covered
mod Tests
use fl_op.Base.{
  ℕ, Option, none, some, or_else, Bool, true, false, ◌&&◌, ◌||◌, List, [], ◌∷◌, ◌++◌, Text, text_eq,
  codes, contains, if◌then◌else◌, keep, map, ◌==◌,
}
use fl_op.Base.Dict.{Dict, get, put}
use fl_op.Base.Strip.{strip, is_empty}
use fl_op.Solver.Allocation.Model.{sorted_by}
use fl_op.Solver.Operators.{ClusterSpec}

-- Floats, the values of two fields with `float(value or 0.0)` (none is an error), and `str.lower`.
pub record Amounts : Type 1 where
  pub Float : Type 0
  pub zero_f : Float
  pub sub : Float → Float → Float
  pub times : Float → Float → Float
  pub le : Float → Float → Bool
  pub gt : Float → Float → Bool
  pub round_2 : Float → Float
  pub Raw : Type 0
  pub to_float : Raw → Option Float
  pub lower : Text → Text

pub data ReservationStatus : Type 0 where
  provisional confirmed consumed released : ReservationStatus

module _ (m : Amounts) where
  -- What is read of an order and of a depot.
  pub record MaterialTask : Type 0 where
    pub task_id : Text
    pub operation_type : Text
    pub penalty_per_day : m.Float
    pub area : m.Raw
    pub work_quantity : m.Raw
    pub work_quantity_unit : Text

  pub record MaterialDepot : Type 0 where
    pub location_id : Text
    pub inventory_material : m.Float

  -- `MaterialDemandSpec`
  pub record MaterialDemand : Type 0 where
    pub material : Text
    pub per_area_ha : m.Float

  -- `MaterialReservationRecord`, without the unit, which is the same in all
  pub record MaterialReservation : Type 0 where
    pub reservation_id : Text
    pub task_id : Text
    pub material_type : Text
    pub inventory_location_ref : Text
    pub quantity : m.Float
    pub status : ReservationStatus
    pub reserved_from : Option Text
    pub reserved_to : Option Text

  -- `_nonnegative_float`
  abbrev pub nonnegative_float : m.Raw → m.Float
  nonnegative_float value =
      let number = or_else (m.to_float value) m.zero_f in
      if m.gt number m.zero_f then number else m.zero_f

  abbrev is_hectare : Text → Bool
  is_hectare unit =
      is_empty unit || unit == codes "ha" || unit == codes "hectare" || unit == codes "hectares"

  -- `_area_ha_for_material`
  unfoldable pub area_ha_for_material : MaterialTask → m.Float
  area_ha_for_material order =
      let area = nonnegative_float order.area in
      if m.gt area m.zero_f
      then area
      else if is_hectare (m.lower (strip order.work_quantity_unit))
      then nonnegative_float order.work_quantity
      else m.zero_f

  abbrev pub Demanding : Type 0
  Demanding = MaterialTask × MaterialDemand

  abbrev spec_of : Dict Text MaterialDemand → Option MaterialTask → Option Demanding
  spec_of material_demand none = none
  spec_of material_demand (some order) = go (get order.operation_type material_demand)
    where
      go : Option MaterialDemand → Option Demanding
      go none = none
      go (some spec) = some (order, spec)

  -- `passthrough` and `demanding`
  unfoldable pub partition_tasks :
      Dict Text MaterialTask → Dict Text MaterialDemand → List Text → List Text × List Demanding
  partition_tasks order_index material_demand [] = ([], [])
  partition_tasks order_index material_demand (task_id ∷ task_ids) =
      add (spec_of material_demand (get task_id order_index)) task_id
        (partition_tasks order_index material_demand task_ids)
    where
      add : Option Demanding → Text → List Text × List Demanding → List Text × List Demanding
      add none task_id (passthrough, demanding) = (task_id ∷ passthrough, demanding)
      add (some pair) task_id (passthrough, demanding) = (passthrough, pair ∷ demanding)

  -- What the charges of a cluster change. A task that is dropped is named with its cluster.
  pub record Charged : Type 0 where
    pub remaining : Dict Text m.Float
    pub kept_ids : List Text
    pub reservations : List MaterialReservation
    pub infeasible : List (Text × Text)

  abbrev reserve : Text → Demanding → m.Float → MaterialReservation
  reserve depot_ref (order, spec) demand = record {
    reservation_id = codes "res-" ++ order.task_id;
    task_id = order.task_id;
    material_type = spec.material;
    inventory_location_ref = depot_ref;
    quantity = m.round_2 demand;
    status = provisional;
    reserved_from = none;
    reserved_to = none;
  }

  unfoldable pub charge_one : ClusterSpec → Demanding → Charged → Charged
  unfolding area_ha_for_material
  charge_one cluster (order, spec) c =
      let demand = m.times spec.per_area_ha (area_ha_for_material order) in
      let available = or_else (get cluster.depot_ref c.remaining) m.zero_f in
      let kept = c.kept_ids ++ order.task_id ∷ [] in
      if m.le demand m.zero_f
      then record c { kept_ids = kept }
      else if m.le demand available
      then record c {
        remaining = put cluster.depot_ref (m.sub available demand) c.remaining;
        kept_ids = kept;
        reservations = c.reservations ++ reserve cluster.depot_ref (order, spec) demand ∷ [];
      }
      else record c { infeasible = c.infeasible ++ (order.task_id, cluster.cluster_id) ∷ [] }

  unfoldable pub charge_all : ClusterSpec → List Demanding → Charged → Charged
  charge_all cluster [] c = c
  charge_all cluster (pair ∷ demanding) c = charge_all cluster demanding (charge_one cluster pair c)

  -- `sort(key=float(penalty_per_day), reverse=True)`, which is stable
  abbrev penalty_gt : Demanding → Demanding → Bool
  penalty_gt (a, _) (b, _) = m.gt a.penalty_per_day b.penalty_per_day

  -- One cluster: what is charged, and the cluster with the tasks it keeps.
  unfoldable pub charge_cluster :
      Dict Text MaterialTask
      → Dict Text MaterialDemand
      → ClusterSpec
      → Charged
      → ClusterSpec × Charged
  unfolding partition_tasks charge_all sorted_by
  charge_cluster order_index material_demand cluster c =
      let (passthrough, demanding) = partition_tasks order_index material_demand cluster.task_ids in
      let after =
        charge_all cluster (sorted_by penalty_gt demanding) (record c { kept_ids = passthrough }) in
      (record cluster { task_ids = keep (λ t. contains t after.kept_ids) cluster.task_ids }, after)

  unfoldable pub charge_clusters :
      Dict Text MaterialTask
      → Dict Text MaterialDemand
      → List ClusterSpec
      → Charged
      → List ClusterSpec × Charged
  charge_clusters order_index material_demand [] c = ([], c)
  charge_clusters order_index material_demand (cluster ∷ clusters) c =
      let (cluster', next) = charge_cluster order_index material_demand cluster c in
      let (clusters', final) = charge_clusters order_index material_demand clusters next in
      (cluster' ∷ clusters', final)

  unfoldable pub inventory : List MaterialDepot → Dict Text m.Float → Dict Text m.Float
  inventory [] remaining = remaining
  inventory (d ∷ depots) remaining =
      inventory depots (put d.location_id d.inventory_material remaining)

  abbrev opening : List MaterialDepot → Charged
  opening depots = record {
    remaining = inventory depots [];
    kept_ids = [];
    reservations = [];
    infeasible = [];
  }

  -- `apply_material_limits`: the clusters as it leaves them, and what it charged
  unfoldable pub apply_material_limits :
      List ClusterSpec
      → Dict Text MaterialTask
      → List MaterialDepot
      → Dict Text MaterialDemand
      → List ClusterSpec × Charged
  unfolding charge_clusters inventory
  apply_material_limits clusters order_index depots [] = (clusters, opening depots)
  apply_material_limits clusters order_index depots (d ∷ material_demand) =
      charge_clusters order_index (d ∷ material_demand) clusters (opening depots)

  -- The fields of a dispatch that are read.
  pub record Scheduled : Type 0 where
    pub task_id : Text
    pub scheduled_start : Option Text
    pub scheduled_end : Option Text

  abbrev settle : Option Scheduled → MaterialReservation → MaterialReservation
  settle none reservation = record reservation { status = released }
  settle (some dispatch) reservation = record reservation {
    status = confirmed;
    reserved_from = dispatch.scheduled_start;
    reserved_to = dispatch.scheduled_end;
  }

  unfoldable pub dispatched : List Scheduled → Dict Text Scheduled → Dict Text Scheduled
  dispatched [] packages = packages
  dispatched (dp ∷ rest) packages = dispatched rest (put dp.task_id dp packages)

  -- `finalize_material_reservations`
  unfoldable pub finalize_material_reservations :
      List MaterialReservation → List Scheduled → List MaterialReservation
  unfolding dispatched
  finalize_material_reservations reservations dispatch_packages =
      map (λ (r : MaterialReservation). settle (get r.task_id (dispatched dispatch_packages [])) r)
        reservations
