-- ===== src/Solver/Operators.antt =====
-- Backup operators: `apply_operator_qualification` of src/fl_op/solver/enforcement.py with what it
-- calls. Free capacities are floats, a parameter; epoch seconds are natural numbers.
pub mod Claims
pub mod Booking
pub mod Qualify
pub mod Qualified
pub mod Reported
pub mod Pass
mod Tests
use fl_op.Base.{
  ℕ, max, min, Option, none, some, or_else, Bool, true, false, ◌&&◌, ◌||◌, not, List, [], ◌∷◌, ◌++◌,
  map, Text, text_eq, codes, contains, if◌then◌else◌, ltb, keep, ◌==◌,
}
use fl_op.Base.Dict.{Dict, get, put}
use fl_op.Base.Strip.{is_empty}
use fl_op.Relations.Order.{RawWindows}
use fl_op.Relations.Windows.{Parsers, TimeWindow, parse_time_windows}
use fl_op.Solver.Intervals.{Interval, merge_busy, intervals_overlap}

-- Floats, `str.upper`, and the parsers of windows.
pub record Reading : Type 1 where
  pub Float : Type 0
  pub minus_one : Float
  pub one : Float
  pub gt : Float → Float → Bool
  pub upper : Text → Text
  pub parsers : Parsers

-- What is read of an order; `operation_type` is empty where there is none.
pub record Task : Type 0 where
  pub operation_type : Text
  pub time_windows : RawWindows

-- An operator's `certified_operations`, as `ops_set` reads them.
abbrev pub Operators : Type 0
Operators = Dict Text (List Text)

-- The fields of a `ClusterSpec` that this pass and that of material limits read and write. No reference is the empty text.
pub record ClusterSpec : Type 0 where
  pub cluster_id : Text
  pub depot_ref : Text
  pub operator_ref : Text
  pub allocated_prime_related : Dict Text (List Text)
  pub task_ids : List Text
  pub task_operators : Dict Text Text
  pub shared_backup_operators : List Text

-- `NO_AVAILABLE_OPERATOR`, with the parts of the detail
pub record Unqualified : Type 0 where
  pub task_id : Text
  pub cluster_id : Text
  pub operator_ref : Text
  pub operation : Option Text

module _ (r : Reading) where
  -- The loop over one task's windows in `_operator_demand_window`.
  abbrev end_of : ℕ → Option ℕ → ℕ
  end_of horizon_end none = horizon_end
  end_of horizon_end (some end) = min horizon_end end

  unfoldable pub demanded : ℕ → ℕ → List TimeWindow → List Interval
  demanded now horizon_end [] = []
  demanded now horizon_end ((start, end) ∷ windows) =
      let rest = demanded now horizon_end windows in
      let interval : Interval = (max now start, end_of horizon_end end) in
      if ltb interval.0 interval.1 then interval ∷ rest else rest

  abbrev windows_of : Option Task → List TimeWindow
  windows_of none = []
  windows_of (some order) = parse_time_windows r.parsers order.time_windows

  -- none where a task without windows asks for the whole horizon
  unfoldable pub gather : ℕ → ℕ → List (Option Task) → Option (List Interval)
  unfolding demanded parse_time_windows
  gather now horizon_end [] = some []
  gather now horizon_end (order ∷ orders) =
      let windows = windows_of order in
      if is_empty windows
      then none
      else go (demanded now horizon_end windows) (gather now horizon_end orders)
    where
      go : List Interval → Option (List Interval) → Option (List Interval)
      go here none = none
      go here (some rest) = some (here ++ rest)

  -- `_operator_demand_window`
  unfoldable pub operator_demand_window : ℕ → ℕ → List (Option Task) → List Interval
  unfolding gather merge_busy
  operator_demand_window now horizon_end orders = go (gather now horizon_end orders)
    where
      go : Option (List Interval) → List Interval
      go none = (now, horizon_end) ∷ []
      go (some []) = (now, horizon_end) ∷ []
      go (some (i ∷ intervals)) = merge_busy (i ∷ intervals)

  -- The best operator so far with its score.
  abbrev pub Best : Type 0
  Best = Option Text × r.Float

  abbrev pub better : Text → r.Float → Best → Best
  better operator_id free (best, score) =
      if r.gt free score then (some operator_id, free) else (best, score)

  -- Whether an operator may back up the operation: certified, and no cluster's prime operator.
  abbrev pub eligible : Text → List Text → Text × List Text → Bool
  eligible operation main_claimed (operator_id, certified) =
      not (contains operator_id main_claimed) && contains operation certified

  abbrev pub busy_of : Text → Dict Text (List Interval) → List Interval
  busy_of operator_id busy = or_else (get operator_id busy) []

  -- One operator, by whether it is eligible and whether its calendar meets the demand.
  unfoldable pub consider : Bool → Bool → Text → r.Float → Best → Best → Best × Best
  consider false meets id free free_best overlap_best = (free_best, overlap_best)
  consider true true id free free_best overlap_best = (free_best, better id free overlap_best)
  consider true false id free free_best overlap_best = (better id free free_best, overlap_best)

  -- The loop of `_claim_backup_operator`: the best free operator and the best one that is not.
  unfoldable pub scan :
      Text
      → List Text
      → Dict Text (List Interval)
      → List Interval
      → Dict Text r.Float
      → Operators
      → Best × Best
      → Best × Best
  scan operation main_claimed busy demand free_capacity [] bests = bests
  scan operation main_claimed busy demand free_capacity (o ∷ operators) (free_best, overlap_best) =
      let free = or_else (get o.0 free_capacity) r.one in
      let bests =
        consider (eligible operation main_claimed o) (intervals_overlap (busy_of o.0 busy) demand)
          o.0 free free_best overlap_best in
      scan operation main_claimed busy demand free_capacity operators bests

  abbrev pub BackupClaim : Type 0
  BackupClaim = Option Text × Bool

  -- `chosen, is_overlap`
  abbrev pub choose : Bool → Best × Best → BackupClaim
  choose allow_overlap ((some id, _), _) = (some id, false)
  choose allow_overlap ((none, _), (best, _)) =
      if allow_overlap then (best, true) else (none, false)

  abbrev pub commit_claim :
      BackupClaim → List Interval → Dict Text (List Interval) → Dict Text (List Interval)
  commit_claim (none, _) demand busy = busy
  commit_claim (some id, _) demand busy = put id (merge_busy (busy_of id busy ++ demand)) busy

  -- `_claim_backup_operator`, with the calendar it leaves
  unfoldable pub claim_backup_operator :
      Bool
      → Operators
      → List Text
      → Dict Text r.Float
      → Text
      → List Interval
      → Dict Text (List Interval)
      → BackupClaim × Dict Text (List Interval)
  claim_backup_operator allow_overlap operators main_claimed free_capacity operation demand busy =
      let claim = choose allow_overlap (
        scan operation main_claimed busy demand free_capacity operators
          ((none, r.minus_one), (none, r.minus_one))) in
      (claim, commit_claim claim demand busy)

  -- The claims of several operations, one after the other, each with its demand.
  unfoldable pub claim_all :
      Bool
      → Operators
      → List Text
      → Dict Text r.Float
      → List (Text × List Interval)
      → Dict Text (List Interval)
      → List (BackupClaim × List Interval) × Dict Text (List Interval)
  claim_all allow_overlap operators main_claimed free_capacity [] busy = ([], busy)
  claim_all allow_overlap operators main_claimed free_capacity ((operation, demand) ∷ requests)
        busy =
      let (claim, busy') =
        claim_backup_operator allow_overlap operators main_claimed free_capacity operation demand
          busy in
      let (claims, busy'') =
        claim_all allow_overlap operators main_claimed free_capacity requests busy' in
      ((claim, demand) ∷ claims, busy'')
