-- ===== src/Solver/Allocation/Crews.antt =====
-- Operators of clusters: `assign_operator` of src/fl_op/solver/allocation/operators.py over
-- the greedy loop.
use mathlib.Core.Path.{subst}
use fl_op.Base.{
  ◌≡◌, refl, ap, Option, none, some, or_else, true, false, List, [], ◌∷◌, ◌++◌, Text, text_eq,
  contains, ◌==◌, map, All, arith, Bool-cases, inl, inr, Distinct, ==_refl,
}
use fl_op.Base.Dict.{Dict, get}
use fl_op.Solver.Allocation.Model.{
  Scores, Order, Operator, Cluster, Limits, AllocationState, sorted_by, set_add,
}
use fl_op.Solver.Allocation.Candidates.{Lookups}
use fl_op.Solver.Allocation.Free.{All-sorted_by}
use fl_op.Solver.Allocation.Exclusive.{contains-set_add}
use fl_op.Solver.Allocation.Claims.{ref_list, all_operators, exclusive}
use fl_op.Solver.Allocation.Greedy.{
  set_of, reserve_for, orders_of, assign_operator, claim, unclaimed, better_operator, best_operator,
  pick_operator, allocate_cluster, allocate_clusters, allocate_resources_greedy, order_map_of,
  index_operators_by_depot, no_claims, cluster_before,
}

abbrev IsUnclaimed : AllocationState → Operator → Type 0
IsUnclaimed state op = contains op.asset_id state.claimed_operators ≡ false

unclaimed-IsUnclaimed :
    (state : AllocationState) (ops : List Operator) → All (IsUnclaimed state) (unclaimed state ops)
unclaimed-IsUnclaimed state [] = tt
unclaimed-IsUnclaimed state (op ∷ ops) =
    elim (Bool-cases (contains op.asset_id state.claimed_operators)) [
      | inl taken ↦ rw taken (unclaimed-IsUnclaimed state ops)
      | inr free ↦ rw free (free, unclaimed-IsUnclaimed state ops)
    ]

module _ (s : Scores) (l : Lookups s) where
  best_operator-All :
      (P : Operator → Type 0) (operations : List Text) (best : Operator) (ops : List Operator)
      → P best
      → All P ops
      → P (best_operator s l operations best ops)
  unfolding best_operator
  best_operator-All P operations best [] pb all = pb
  best_operator-All P operations best (op ∷ ops) pb all =
      elim (Bool-cases (better_operator s l operations op best)) [
        | inl better ↦ rw better (best_operator-All P operations op ops all.0 all.1)
        | inr worse ↦ rw worse (best_operator-All P operations best ops pb all.1)
      ]

  -- What an operator that is picked, or none, has.
  abbrev Picked : AllocationState → Option Operator → Type 0
  Picked state none = Unit
  Picked state (some op) = IsUnclaimed state op

  pick_operator-Picked :
      (state : AllocationState) (operations : List Text) (depot all_ops : List Operator)
      → All (IsUnclaimed state) depot
      → All (IsUnclaimed state) all_ops
      → Picked state (pick_operator s l operations depot all_ops)
  pick_operator-Picked state operations [] [] hd ha = tt
  pick_operator-Picked state operations [] (op ∷ ops) hd ha =
      best_operator-All (IsUnclaimed state) operations op ops ha.0 ha.1
  pick_operator-Picked state operations (op ∷ ops) all_ops hd ha =
      best_operator-All (IsUnclaimed state) operations op ops hd.0 hd.1

  -- What a claim does to a cluster that has no operator yet.
  abbrev Claims : List Text → Option Text → List Text → Type 0
  Claims before none after = after ≡ before
  Claims before (some id) after = (contains id before ≡ false) × (after ≡ set_add id before)

  claim-Claims :
      (state : AllocationState) (op : Option Operator) (c : Cluster s)
      → Picked state op
      → c.operator_ref ≡ none
      → Claims state.claimed_operators
          (claim s l op (c, state)).0.operator_ref
          (claim s l op (c, state)).1.claimed_operators
  claim-Claims state none c picked bare = rw bare refl
  claim-Claims state (some op) c picked bare = (picked, refl)

  join :
      (before : List Text) (ref : Option Text) (after rest : List Text)
      → Claims before ref after
      → Distinct rest
      → ((i : Text) → contains i rest ≡ true → contains i after ≡ false)
      → Distinct (ref_list s ref ++ rest)
        × ((i : Text) → contains i (ref_list s ref ++ rest) ≡ true → contains i before ≡ false)
  unfolding contains set_add
  join before none after rest claims distinct free =
      (distinct, λ i m. ground (arith, free i m, ap (contains i) claims))
  join before (some id) after rest (new, e) distinct free =
      let known = λ (i : Text). contains-set_add i id before in
      (
        (ground (arith, free id, ap (contains id) e, known id, ==_refl id), distinct),
        λ i m. elim (Bool-cases (id == i)) [
          | inl same ↦ ground (arith, text_eq.agrees_iff id i, new)
          | inr other ↦ ground (arith, free i, m, other, ap (contains i) e, known i)
        ],
      )

  module _ (limits : Limits) (order_map : Dict Text (Order s)) (operators : List Operator)
      (depots : Dict Text (List Operator)) where
    run-Claims :
        (c : Cluster s) (st : AllocationState)
        → c.operator_ref ≡ none
        → Claims st.claimed_operators
            (allocate_cluster s l limits order_map operators depots c st).0.operator_ref
            (allocate_cluster s l limits order_map operators depots c st).1.claimed_operators
    unfolding allocate_cluster assign_operator
    run-Claims c st bare =
        let orders = orders_of s l order_map c.task_ids in
        let state = (reserve_for s l limits orders st).state in
        let local = unclaimed state (or_else (get c.depot_ref depots) []) in
        let operations = set_of (map (λ (o : Order s). o.operation_type) orders) in
        let op = pick_operator s l operations local (unclaimed state operators) in
        let picked =
          pick_operator-Picked state operations local (unclaimed state operators)
            (unclaimed-IsUnclaimed state (or_else (get c.depot_ref depots) []))
            (unclaimed-IsUnclaimed state operators) in
        subst
          (λ b.
            Claims b (claim s l op (c, state)).0.operator_ref
              (claim s l op (c, state)).1.claimed_operators)
          (exclusive s l limits order_map operators depots c st).operators
          (claim-Claims state op c picked bare)

    abbrev later : List (Cluster s) → AllocationState → List Text
    later clusters st =
        all_operators s (allocate_clusters s l limits order_map operators depots clusters st)

    clusters_operators :
        (clusters : List (Cluster s)) (st : AllocationState)
        → All (λ (c : Cluster s). c.operator_ref ≡ none) clusters
        → Distinct (later clusters st)
          × ((i : Text)
              → contains i (later clusters st) ≡ true
              → contains i st.claimed_operators ≡ false)
    unfolding allocate_clusters contains
    clusters_operators [] st bare = (tt, λ i m. ground (arith, m))
    clusters_operators (c ∷ clusters) st bare =
        let after = (allocate_cluster s l limits order_map operators depots c st).1 in
        let ih = clusters_operators clusters after bare.1 in
        join st.claimed_operators _ after.claimed_operators (later clusters after)
          (run-Claims c st bare.0) ih.0 ih.1

  -- In the greedy allocation of clusters without operators no operator is in two clusters.
  pub greedy_operators-Distinct :
      (limits : Limits) (clusters : List (Cluster s)) (orders : List (Order s))
      (operators : List Operator)
      → All (λ (c : Cluster s). c.operator_ref ≡ none) clusters
      → Distinct (all_operators s (allocate_resources_greedy s l limits clusters orders operators))
  unfolding allocate_resources_greedy
  greedy_operators-Distinct limits clusters orders operators bare =
      (clusters_operators limits (order_map_of s l orders []) operators
        (index_operators_by_depot operators []) (sorted_by (cluster_before s l) clusters)
        (no_claims s l)
        (All-sorted_by (λ (c : Cluster s). c.operator_ref ≡ none) (cluster_before s l) clusters
          bare)).0
