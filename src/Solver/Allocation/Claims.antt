-- ===== src/Solver/Allocation/Claims.antt =====
-- No resource is given away twice: `_allocate_resources_greedy` of
-- src/fl_op/solver/allocation/allocator.py.
use fl_op.Base.{
  ◌≡◌, refl, ap, ℕ, ◌+◌, ◌≤◌, Option, none, some, true, false, List, [], ◌∷◌, ◌++◌, Text, text_eq,
  contains, length, map, All, arith, Bool-cases, inl, inr, Distinct, Distinct-append,
  contains-append,
}
use fl_op.Base.Dict.{Dict, get}
use fl_op.Solver.Allocation.Model.{
  Scores, Order, Operator, Cluster, Limits, AllocationState, sorted_by, count_of,
  max_vehicle_assignments, cluster_resource_limit,
}
use fl_op.Solver.Allocation.Candidates.{
  Lookups, Reservation, reserve_best_candidates, candidate_before,
}
use fl_op.Solver.Allocation.Free.{IsFree, All-sorted_by, candidates_for-AllFree}
use fl_op.Solver.Allocation.Exclusive.{
  IsExclusive, implements_in, vehicles_in, one_if, reserve_loop-IsExclusive, nothing_reserved,
  nothing_reserved-IsExclusive,
}
use fl_op.Solver.Allocation.Greedy.{
  candidates_for, reserve_for, orders_of, assign_operator, claim, allocate_cluster,
  allocate_clusters, allocate_resources_greedy, order_map_of, index_operators_by_depot, no_claims,
  cluster_before,
}

All-keys :
    {K V : Type 0} (P : K → Type 0) (d : List (K × V))
    → All (λ (c : K × V). P c.0) d
    → All P (map (λ (c : K × V). c.0) d)
All-keys P [] all = tt
All-keys P (c ∷ d) all = (all.0, All-keys P d all.1)

module _ (s : Scores) where
  -- All implements of the clusters, and in how many clusters a vehicle is.
  abbrev pub all_implements : List (Cluster s) → List Text
  all_implements [] = []
  all_implements (cluster ∷ clusters) = implements_in cluster.allocated ++ all_implements clusters

  abbrev pub uses : Text → List (Cluster s) → ℕ
  uses vehicle [] = 0
  uses vehicle (cluster ∷ clusters) =
      one_if (contains vehicle (vehicles_in cluster.allocated)) + uses vehicle clusters

  abbrev pub ref_list : Option Text → List Text
  ref_list none = []
  ref_list (some id) = id ∷ []

  -- All operators of the clusters.
  abbrev pub all_operators : List (Cluster s) → List Text
  all_operators [] = []
  all_operators (cluster ∷ clusters) = ref_list cluster.operator_ref ++ all_operators clusters

module _ (s : Scores) (l : Lookups s) (limits : Limits) where
  reserve_for-IsExclusive :
      (orders : List (Order s)) (state : AllocationState)
      → IsExclusive state
          (cluster_resource_limit limits (length orders))
          (reserve_for s l limits orders state)
  unfolding reserve_for reserve_best_candidates
  reserve_for-IsExclusive orders state =
      reserve_loop-IsExclusive state (cluster_resource_limit limits (length orders)) _
        (nothing_reserved state) (nothing_reserved-IsExclusive state _)
        (All-keys (IsFree state max_vehicle_assignments)
          (sorted_by (candidate_before s) (candidates_for s l orders state))
          (All-sorted_by (λ (c : (Text × Text) × s.Score). IsFree state max_vehicle_assignments c.0)
            (candidate_before s) (candidates_for s l orders state)
            (candidates_for-AllFree s l orders state)))

  module _ (order_map : Dict Text (Order s)) (operators : List Operator)
      (depots : Dict Text (List Operator)) where
    -- What one cluster takes, and the state after it.
    abbrev run : Cluster s → AllocationState → Cluster s × AllocationState
    run = allocate_cluster s l limits order_map operators depots

    claimed_implements-claim :
        (op : Option Operator) (c : Cluster s) (st : AllocationState)
        → (claim s l op (c, st)).1.claimed_implements ≡ st.claimed_implements
    claimed_implements-claim none c st = refl
    claimed_implements-claim (some op) c st = refl

    counts-claim :
        (op : Option Operator) (c : Cluster s) (st : AllocationState)
        → (claim s l op (c, st)).1.vehicle_assignment_count ≡ st.vehicle_assignment_count
    counts-claim none c st = refl
    counts-claim (some op) c st = refl

    abbrev reservation_of : Cluster s → AllocationState → Reservation
    reservation_of c st = reserve_for s l limits (orders_of s l order_map c.task_ids) st

    pub exclusive :
        (c : Cluster s) (st : AllocationState)
        → IsExclusive st
            (cluster_resource_limit limits (length (orders_of s l order_map c.task_ids)))
            (reservation_of c st)
    exclusive c st = reserve_for-IsExclusive (orders_of s l order_map c.task_ids) st

    run-allocated :
        (c : Cluster s) (st : AllocationState)
        → (run c st).0.allocated ≡ (reservation_of c st).allocated
    unfolding allocate_cluster
    run-allocated c st = refl

    run-claimed :
        (c : Cluster s) (st : AllocationState)
        → (run c st).1.claimed_implements ≡ (reservation_of c st).state.claimed_implements
    unfolding allocate_cluster assign_operator
    run-claimed c st = claimed_implements-claim _ c _

    run-counts :
        (c : Cluster s) (st : AllocationState)
        → (run c st).1.vehicle_assignment_count
          ≡ (reservation_of c st).state.vehicle_assignment_count
    unfolding allocate_cluster assign_operator
    run-counts c st = counts-claim _ c _

    -- Later clusters take implements that are unclaimed, each once.
    clusters_implements :
        (clusters : List (Cluster s)) (st : AllocationState)
        → Distinct
            (all_implements s (allocate_clusters s l limits order_map operators depots clusters st))
          × ((i : Text)
              → contains i (
                  all_implements s
                    (allocate_clusters s l limits order_map operators depots clusters st))
                ≡ true
              → contains i st.claimed_implements ≡ false)
    unfolding allocate_clusters contains
    clusters_implements [] st = (tt, λ i m. ground (arith, m))
    clusters_implements (c ∷ clusters) st =
        let x = exclusive c st in
        let ih = clusters_implements clusters (run c st).1 in
        let given = implements_in (reservation_of c st).allocated in
        (
          Distinct-append given _ x.implements ih.0
              (λ a m. ground (arith, ih.1 a m, ap (contains a) (run-claimed c st), x.claimed a)),
          λ i m. elim (Bool-cases (contains i given)) [
            | inl now ↦ x.was_unclaimed i now
            | inr then_later ↦
                let left = contains-append i given (
                  all_implements s (
                    allocate_clusters s l limits order_map operators depots clusters
                      (run c st).1)) in
                let free = ih.1 i (ground (arith, left, m, then_later)) in
                ground (arith, free, ap (contains i) (run-claimed c st), x.claimed i)
          ],
        )

    -- A vehicle's clusters so far and the later ones are at most two.
    clusters_uses :
        (v : Text) (clusters : List (Cluster s)) (st : AllocationState)
        → count_of v st.vehicle_assignment_count ≤ max_vehicle_assignments
        → count_of v st.vehicle_assignment_count
            + uses s v (allocate_clusters s l limits order_map operators depots clusters st)
          ≤ max_vehicle_assignments
    unfolding allocate_clusters
    clusters_uses v [] st ok = ground (arith, ok)
    clusters_uses v (c ∷ clusters) st ok =
        let x = exclusive c st in
        let later = clusters_uses v clusters (run c st).1 in
        ground (arith, later, ap (count_of v) (run-counts c st), x.counted v, x.had_room v)

  -- In the greedy allocation no implement is in two clusters, nor twice in one.
  pub greedy_implements-Distinct :
      (clusters : List (Cluster s)) (orders : List (Order s)) (operators : List Operator)
      → Distinct (all_implements s (allocate_resources_greedy s l limits clusters orders operators))
  unfolding allocate_resources_greedy
  greedy_implements-Distinct clusters orders operators =
      (clusters_implements (order_map_of s l orders []) operators
        (index_operators_by_depot operators []) (sorted_by (cluster_before s l) clusters)
        (no_claims s l)).0

  -- In the greedy allocation no vehicle is in more than two clusters.
  pub greedy_vehicle_uses :
      (v : Text) (clusters : List (Cluster s)) (orders : List (Order s)) (operators : List Operator)
      → uses s v (allocate_resources_greedy s l limits clusters orders operators)
        ≤ max_vehicle_assignments
  unfolding allocate_resources_greedy get
  greedy_vehicle_uses v clusters orders operators = ground (
    arith,
    clusters_uses (order_map_of s l orders []) operators (index_operators_by_depot operators []) v
        (sorted_by (cluster_before s l) clusters) (no_claims s l) (omega arith),
  )
