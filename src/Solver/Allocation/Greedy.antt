-- ===== src/Solver/Allocation/Greedy.antt =====
-- The greedy reservation over all clusters: src/fl_op/solver/allocation/allocator.py and
-- src/fl_op/solver/allocation/operators.py.
use fl_op.Base.{
  ℕ, Option, none, some, or_else, Bool, ◌&&◌, ◌||◌, not, List, [], ◌∷◌, ◌++◌, Text, text_eq,
  contains, if◌then◌else◌, ltb, eqb, length, keep, map,
}
use fl_op.Base.Dict.{Dict, get, put}
use fl_op.Base.Strip.{is_empty}
use fl_op.Solver.Allocation.Model.{
  Scores, Order, Operator, Cluster, AllocationState, Limits, cluster_resource_limit, text_lt,
  sorted_by, set_add, max_vehicle_assignments,
}
use fl_op.Solver.Allocation.Candidates.{
  Lookups, Candidates, collect_pair_candidates, Reservation, reserve_best_candidates,
}

-- `index_operators_by_depot`
unfoldable pub index_operators_by_depot :
    List Operator → Dict Text (List Operator) → Dict Text (List Operator)
index_operators_by_depot [] index = index
index_operators_by_depot (operator ∷ operators) index = index_operators_by_depot operators (
    put operator.home_depot_ref (or_else (get operator.home_depot_ref index) [] ++ operator ∷ [])
      index)

-- `len(a & b)`, for sets listed without repetition
abbrev pub common : List Text → List Text → ℕ
common a b = length (keep (λ x. contains x b) a)

-- `set(...)`
unfoldable pub set_of : List Text → List Text
unfolding set_add
set_of [] = []
set_of (a ∷ rest) = set_add a (set_of rest)

abbrev pub unclaimed : AllocationState → List Operator → List Operator
unclaimed state = keep (λ op. not (contains op.asset_id state.claimed_operators))

module _ (s : Scores) (l : Lookups s) where
  -- The key of `max`: qualified operations, then free capacity.
  abbrev pub better_operator : List Text → Operator → Operator → Bool
  better_operator operations a b =
      let qa = common operations a.certified_operations in
      let qb = common operations b.certified_operations in
      ltb qb qa
      || eqb qb qa
        && s.lt (or_else (get b.asset_id l.free_capacity) s.one_s)
            (or_else (get a.asset_id l.free_capacity) s.one_s)

  -- `max`, which keeps the first of equals
  unfoldable pub best_operator : List Text → Operator → List Operator → Operator
  best_operator operations best [] = best
  best_operator operations best (op ∷ ops) =
      best_operator operations (if better_operator operations op best then op else best) ops

  abbrev pub pick_operator : List Text → List Operator → List Operator → Option Operator
  pick_operator operations (op ∷ ops) _ = some (best_operator operations op ops)
  pick_operator operations [] (op ∷ ops) = some (best_operator operations op ops)
  pick_operator operations [] [] = none

  abbrev pub claim : Option Operator → Cluster s × AllocationState → Cluster s × AllocationState
  claim none (cluster, state) = (cluster, state)
  claim (some op) (cluster, state) = (
    record cluster { operator_ref = some op.asset_id },
    record state { claimed_operators = set_add op.asset_id state.claimed_operators },
  )

  unfoldable pub assign_operator :
      Cluster s
      → List Operator
      → Dict Text (List Operator)
      → AllocationState
      → List Text
      → Cluster s × AllocationState
  unfolding best_operator set_add
  assign_operator cluster operators depot_operators state operations =
      claim
        (pick_operator operations
          (unclaimed state (or_else (get cluster.depot_ref depot_operators) []))
          (unclaimed state operators))
        (cluster, state)

  -- `[order_map[oid] for oid in task_ids if oid in order_map]`
  unfoldable pub orders_of : Dict Text (Order s) → List Text → List (Order s)
  orders_of order_map [] = []
  orders_of order_map (id ∷ ids) = go (get id order_map) (orders_of order_map ids)
    where
      go : Option (Order s) → List (Order s) → List (Order s)
      go none rest = rest
      go (some order) rest = order ∷ rest

  -- Vehicles without a cluster first, and if there is no pair left, vehicles with one.
  unfoldable pub candidates_for : List (Order s) → AllocationState → Candidates s l
  unfolding collect_pair_candidates
  candidates_for orders state =
      let fresh = collect_pair_candidates s l orders state 1 in
      if is_empty fresh
      then collect_pair_candidates s l orders state max_vehicle_assignments
      else fresh

  unfoldable pub reserve_for : Limits → List (Order s) → AllocationState → Reservation
  unfolding candidates_for reserve_best_candidates cluster_resource_limit
  reserve_for limits orders state =
      reserve_best_candidates s (candidates_for orders state)
        (cluster_resource_limit limits (length orders)) state

  -- One turn of the loop of `_allocate_resources_greedy`.
  unfoldable pub allocate_cluster :
      Limits
      → Dict Text (Order s)
      → List Operator
      → Dict Text (List Operator)
      → Cluster s
      → AllocationState
      → Cluster s × AllocationState
  unfolding orders_of reserve_for assign_operator set_of
  allocate_cluster limits order_map operators depot_operators cluster state =
      let orders = orders_of order_map cluster.task_ids in
      let reservation = reserve_for limits orders state in
      let operations = set_of (map (λ (o : Order s). o.operation_type) orders) in
      let (assigned, after) =
        assign_operator cluster operators depot_operators reservation.state operations in
      (record assigned { allocated = reservation.allocated }, after)

  unfoldable pub allocate_clusters :
      Limits
      → Dict Text (Order s)
      → List Operator
      → Dict Text (List Operator)
      → List (Cluster s)
      → AllocationState
      → List (Cluster s)
  unfolding allocate_cluster
  allocate_clusters limits order_map operators depot_operators [] state = []
  allocate_clusters limits order_map operators depot_operators (cluster ∷ clusters) state =
      let (done, after) =
        allocate_cluster limits order_map operators depot_operators cluster state in
      done ∷ allocate_clusters limits order_map operators depot_operators clusters after

  -- `{o.task_id: o for o in orders}`
  unfoldable pub order_map_of : List (Order s) → Dict Text (Order s) → Dict Text (Order s)
  order_map_of [] d = d
  order_map_of (order ∷ orders) d = order_map_of orders (put order.task_id order d)

  -- `AllocationState()`
  abbrev pub no_claims : AllocationState
  no_claims = record {
    claimed_implements = [];
    claimed_operators = [];
    vehicle_assignment_count = [];
  }

  -- The higher penalty first, then the id.
  abbrev pub cluster_before : Cluster s → Cluster s → Bool
  cluster_before a b =
      s.lt b.total_penalty_per_day a.total_penalty_per_day
      || not (s.lt a.total_penalty_per_day b.total_penalty_per_day)
        && text_lt a.cluster_id b.cluster_id

  unfoldable pub allocate_resources_greedy :
      Limits → List (Cluster s) → List (Order s) → List Operator → List (Cluster s)
  unfolding sorted_by text_lt order_map_of index_operators_by_depot allocate_clusters
  allocate_resources_greedy limits clusters orders operators =
      allocate_clusters limits (order_map_of orders []) operators
        (index_operators_by_depot operators []) (sorted_by cluster_before clusters) no_claims
