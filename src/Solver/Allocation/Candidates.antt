-- ===== src/Solver/Allocation/Candidates.antt =====
-- Candidate pairs and their reservation: src/fl_op/solver/allocation/candidates.py, with the scores
-- of src/fl_op/solver/allocation/scoring.py.
use fl_op.Base.{
  map, ℕ, ◌+◌, Option, none, some, or_else, Bool, ◌&&◌, ◌||◌, not, List, [], ◌∷◌, Text, text_eq,
  contains, if◌then◌else◌, ltb, leb, length, ◌==◌, nat_eq, pair_eq,
}
use fl_op.Base.Dict.{Dict, get, put}
use fl_op.Solver.Allocation.Model.{
  Scores, Order, AllocationState, text_lt, sorted_by, set_add, count_of,
}

-- `ScoredLookup`, `FreeCapacity` and the power margin matrix.
pub record Lookups (s : Scores) : Type 0 where
  pub scored : Option (Dict Text (Dict (ℕ × ℕ) s.Score))
  pub free_capacity : Dict Text s.Score
  pub power_margin : ℕ → ℕ → s.Score
  pub feasible_pairs : Dict Text (List (ℕ × ℕ))
  pub idx_to_vehicle : Dict ℕ Text
  pub idx_to_implement : Dict ℕ Text

module _ (s : Scores) (l : Lookups s) where
  -- `min(a, b)`
  abbrev min_score : s.Score → s.Score → s.Score
  min_score a b = if s.lt b a then b else a

  abbrev looked_up : Text → ℕ → ℕ → Option (Dict Text (Dict (ℕ × ℕ) s.Score)) → Option s.Score
  looked_up task_id v i none = none
  looked_up task_id v i (some lookup) = get (v, i) (or_else (get task_id lookup) [])

  -- `score_vi_pair`
  unfoldable pub score_vi_pair : Order s → ℕ → ℕ → Text → Text → s.Score
  score_vi_pair order v i vehicle_id implement_id =
      let base = or_else (looked_up order.task_id v i l.scored) (l.power_margin v i) in
      let urgency = s.mul (or_else order.penalty_per_day s.zero_s) s.urgency_weight in
      let headroom = s.mul (l.power_margin v i) s.tiebreaker_weight in
      let score = s.add (s.add base urgency) headroom in
      let discount =
        min_score (or_else (get vehicle_id l.free_capacity) s.one_s)
          (or_else (get implement_id l.free_capacity) s.one_s) in
      if ltb 0 (length l.free_capacity) && s.lt s.zero_s score then s.mul score discount else score

  abbrev pub Candidates : Type 0
  Candidates = Dict (Text × Text) s.Score

  -- A pair that names a vehicle and an implement that are still free.
  abbrev pub is_free : AllocationState → ℕ → Text → Text → Bool
  is_free state max_uses vehicle_id implement_id =
      not (contains implement_id state.claimed_implements)
      && ltb (count_of vehicle_id state.vehicle_assignment_count) max_uses

  unfoldable pub add_candidate :
      Order s → AllocationState → ℕ → ℕ × ℕ → Option Text → Option Text → Candidates → Candidates
  unfolding score_vi_pair
  add_candidate order state max_uses (v, i) (some vehicle_id) (some implement_id) candidates =
      if is_free state max_uses vehicle_id implement_id
      then put (vehicle_id, implement_id)
          (s.add (or_else (get (vehicle_id, implement_id) candidates) s.zero_s)
            (score_vi_pair order v i vehicle_id implement_id))
          candidates
      else candidates
  add_candidate order state max_uses pair _ _ candidates = candidates

  -- The inner loop of `collect_pair_candidates`, then the outer one.
  unfoldable pub add_pairs : Order s → AllocationState → ℕ → List (ℕ × ℕ) → Candidates → Candidates
  unfolding add_candidate
  add_pairs order state max_uses [] candidates = candidates
  add_pairs order state max_uses ((v, i) ∷ pairs) candidates =
      add_pairs order state max_uses pairs (
        add_candidate order state max_uses (v, i) (get v l.idx_to_vehicle)
          (get i l.idx_to_implement) candidates)

  unfoldable pub add_orders : AllocationState → ℕ → List (Order s) → Candidates → Candidates
  unfolding add_pairs
  add_orders state max_uses [] candidates = candidates
  add_orders state max_uses (order ∷ orders) candidates =
      add_orders state max_uses orders (
        add_pairs order state max_uses (or_else (get order.task_id l.feasible_pairs) []) candidates)

  unfoldable pub collect_pair_candidates : List (Order s) → AllocationState → ℕ → Candidates
  unfolding add_orders
  collect_pair_candidates orders state max_uses = add_orders state max_uses orders []

-- The locals of `reserve_best_candidates` with the state it updates.
pub record Reservation : Type 0 where
  pub allocated : Dict Text (List Text)
  pub reserved_vehicles : List Text
  pub reserved_implements : List Text
  pub state : AllocationState

unfoldable pub reserve_pair : Text → Text → Reservation → Reservation
unfolding set_add
reserve_pair vehicle_id implement_id r = record {
  allocated = put vehicle_id (implement_id ∷ []) r.allocated;
  reserved_vehicles = set_add vehicle_id r.reserved_vehicles;
  reserved_implements = set_add implement_id r.reserved_implements;
  state = record r.state {
    claimed_implements = set_add implement_id r.state.claimed_implements;
    vehicle_assignment_count =
        put vehicle_id (count_of vehicle_id r.state.vehicle_assignment_count + 1)
          r.state.vehicle_assignment_count;
  };
}

abbrev pub is_reserved : Text → Text → Reservation → Bool
is_reserved vehicle_id implement_id r =
    contains vehicle_id r.reserved_vehicles || contains implement_id r.reserved_implements

-- The loop of `reserve_best_candidates`, up to its `break`.
unfoldable pub reserve_loop : ℕ → List (Text × Text) → Reservation → Reservation
unfolding reserve_pair
reserve_loop limit [] r = r
reserve_loop limit ((vehicle_id, implement_id) ∷ pairs) r =
    let skipped = reserve_loop limit pairs r in
    let taken = reserve_loop limit pairs (reserve_pair vehicle_id implement_id r) in
    if leb limit (length r.allocated)
    then r
    else if is_reserved vehicle_id implement_id r
    then skipped
    else taken

module _ (s : Scores) where
  -- The better score first, then the ids.
  abbrev pub candidate_before : (Text × Text) × s.Score → (Text × Text) × s.Score → Bool
  candidate_before ((v, i), a) ((w, j), b) =
      s.lt b a || not (s.lt a b) && (text_lt v w || v == w && text_lt i j)

  unfoldable pub reserve_best_candidates :
      Dict (Text × Text) s.Score → ℕ → AllocationState → Reservation
  unfolding sorted_by text_lt reserve_loop
  reserve_best_candidates candidates limit state =
      reserve_loop limit
        (map (λ (c : (Text × Text) × s.Score). c.0) (sorted_by candidate_before candidates))
        (record { allocated = []; reserved_vehicles = []; reserved_implements = []; state = state })
