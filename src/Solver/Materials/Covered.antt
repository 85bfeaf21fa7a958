-- ===== src/Solver/Materials/Covered.antt =====
-- The accounts of material limits: `apply_material_limits` of src/fl_op/solver/enforcement.py.
use mathlib.Core.Path.{subst}
use fl_op.Base.{
  ◌≡◌, refl, sym, or_else, true, false, List, [], ◌∷◌, ◌++◌, Text, text_eq, Bool-cases, inl, inr,
}
use fl_op.Base.Dict.{Dict, get, put}
use fl_op.Solver.Operators.{ClusterSpec}
use fl_op.Solver.Allocation.Model.{sorted_by}
use fl_op.Solver.Materials.{
  Amounts, MaterialReservation, MaterialTask, MaterialDepot, MaterialDemand, Demanding, Charged,
  charge_one, charge_all, charge_cluster, charge_clusters, inventory, apply_material_limits,
  area_ha_for_material, reserve, partition_tasks, penalty_gt,
}

module _ (m : Amounts) where
  abbrev Stock : Type 0
  Stock = Dict Text m.Float

  abbrev available : Text → Stock → m.Float
  available depot stock = or_else (get depot stock) m.zero_f

  -- What a reservation takes from the stock: a demand above zero that is available.
  abbrev pub Takes : Stock → MaterialReservation m → m.Float → Type 0
  Takes stock r demand =
      (r.quantity ≡ m.round_2 demand)
      × (m.le demand m.zero_f ≡ false)
      × (m.le demand (available r.inventory_location_ref stock) ≡ true)

  abbrev pub taken : Stock → MaterialReservation m → m.Float → Stock
  taken stock r demand =
      put r.inventory_location_ref (m.sub (available r.inventory_location_ref stock) demand) stock

  -- The reservations lead from one stock to another.
  abbrev pub IsLedger : Stock → List (MaterialReservation m) → Stock → Type 0
  IsLedger before [] after = before ≡ after
  IsLedger before (r ∷ reservations) after =
      (demand : m.Float) × Takes before r demand
      × IsLedger (taken before r demand) reservations after

  IsLedger-snoc :
      (before : Stock) (reservations : List (MaterialReservation m)) (after : Stock)
      (r : MaterialReservation m) (demand : m.Float)
      → IsLedger before reservations after
      → Takes after r demand
      → IsLedger before (reservations ++ r ∷ []) (taken after r demand)
  IsLedger-snoc before [] after r demand same takes =
      subst (λ (stock : Stock). IsLedger stock (r ∷ []) (taken after r demand)) (sym same)
        (demand, takes, refl)
  IsLedger-snoc before (r' ∷ reservations) after r demand (first, took, rest) takes =
      (first, took, IsLedger-snoc (taken before r' first) reservations after r demand rest takes)

  module _ (start : Stock) where
    abbrev Keeps : Charged m → Type 0
    Keeps c = IsLedger start c.reservations c.remaining

    charge_one-Keeps :
        (cluster : ClusterSpec) (pair : Demanding m) (c : Charged m)
        → Keeps c
        → Keeps (charge_one m cluster pair c)
    unfolding charge_one
    charge_one-Keeps cluster (order, spec) c kept =
        let demand = m.times spec.per_area_ha (area_ha_for_material m order) in
        elim (Bool-cases (m.le demand m.zero_f)) [
          | inl nothing ↦ rw nothing kept
          | inr some_demand ↦
              elim (Bool-cases (m.le demand (available cluster.depot_ref c.remaining))) [
                | inl covered ↦
                    rw (some_demand, covered)
                      (IsLedger-snoc start c.reservations c.remaining
                        (reserve m cluster.depot_ref (order, spec) demand) demand kept
                        (refl, some_demand, covered))
                | inr short ↦ rw (some_demand, short) kept
              ]
        ]

    charge_all-Keeps :
        (cluster : ClusterSpec) (demanding : List (Demanding m)) (c : Charged m)
        → Keeps c
        → Keeps (charge_all m cluster demanding c)
    unfolding charge_all
    charge_all-Keeps cluster [] c kept = kept
    charge_all-Keeps cluster (pair ∷ demanding) c kept =
        charge_all-Keeps cluster demanding _ (charge_one-Keeps cluster pair c kept)

    module _ (order_index : Dict Text (MaterialTask m))
        (material_demand : Dict Text (MaterialDemand m)) where
      charge_clusters-Keeps :
          (clusters : List ClusterSpec) (c : Charged m)
          → Keeps c
          → Keeps (charge_clusters m order_index material_demand clusters c).1
      unfolding charge_clusters charge_cluster
      charge_clusters-Keeps [] c kept = kept
      charge_clusters-Keeps (cluster ∷ clusters) c kept =
          let (passthrough, demanding) =
            partition_tasks m order_index material_demand cluster.task_ids in
          charge_clusters-Keeps clusters _ (
            charge_all-Keeps cluster (sorted_by (penalty_gt m) demanding)
              (record c { kept_ids = passthrough }) kept)

  -- The material reservations, in their order, lead from the inventory of the depots to what remains
  -- of it: each is the rounded value of a demand that is above zero and that its depot still covers
  -- when it is made, and takes exactly that demand from it.
  pub apply_material_limits-IsLedger :
      (clusters : List ClusterSpec) (order_index : Dict Text (MaterialTask m))
      (depots : List (MaterialDepot m)) (material_demand : Dict Text (MaterialDemand m))
      → let after = (apply_material_limits m clusters order_index depots material_demand).1 in
        IsLedger (inventory m depots []) after.reservations after.remaining
  unfolding apply_material_limits
  apply_material_limits-IsLedger clusters order_index depots [] = refl
  apply_material_limits-IsLedger clusters order_index depots (d ∷ material_demand) =
      charge_clusters-Keeps (inventory m depots []) order_index (d ∷ material_demand) clusters _
        refl
