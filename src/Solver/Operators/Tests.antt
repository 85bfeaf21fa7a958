-- ===== src/Solver/Operators/Tests.antt =====
-- Instances of the properties of backup operators, with natural numbers for free capacities.
use fl_op.Base.{
  ℕ, ◌-◌, ◌+◌, Option, none, some, false, ◌||◌, List, [], ◌∷◌, Text, codes, contains, text_eq, All,
  length, ltb, ◌≡◌, refl,
}
use fl_op.Base.Dict.{get, put}
use fl_op.Relations.Order.{items}
use fl_op.Relations.Windows.{
  as_list, parse_time_windows, parse_window, parse_windows, split_interval,
}
use fl_op.Base.Strip.{strip}
use fl_op.Solver.Intervals.{Interval, intervals_overlap, merge_busy, merge_sorted, merge_from}
use fl_op.Solver.Allocation.Model.{sorted_by}
use fl_op.Solver.Operators.{
  Reading, Task, Operators, ClusterSpec, claim_all, claim_backup_operator, scan, consider, demanded,
  gather, operator_demand_window,
}
use fl_op.Solver.Operators.Booking.{IsExclusive, claim_all-IsExclusive}
use fl_op.Solver.Operators.Qualify.{
  Shares, Qualification, qualify_cluster, apply_operator_qualification, stamp_all, qualify_all,
  note_claims, needs_backup, prime_operators, assign, assign_one, cluster_backups,
}
use fl_op.Solver.Operators.Pass.{IsStaffed, task_count, apply_operator_qualification-IsStaffed}
use fl_op.Solver.Operators.Reported.{reported, qualify_cluster_conserves}

abbrev one_digit : Text → Option ℕ
one_digit (c ∷ []) = some (c - 48)
one_digit s = none

abbrev reading : Reading
reading = record {
  Float = ℕ;
  minus_one = 0;
  one = 1;
  gt = λ a b. ltb b a;
  upper = λ s. s;
  parsers = record { from_iso_format = one_digit; literal_list = λ _. none };
}

abbrev operators : Operators
operators =
    (codes "ann", codes "MAP" ∷ [])
    ∷ (codes "bob", codes "SPRAY" ∷ [])
    ∷ (codes "cy", codes "SPRAY" ∷ [])
    ∷ []

abbrev demands : List (Text × List Interval)
demands =
    (codes "SPRAY", (1, 4) ∷ []) ∷ (codes "SPRAY", (3, 6) ∷ []) ∷ (codes "SPRAY", (5, 7) ∷ []) ∷ []

claim_all-IsExclusive_example :
    IsExclusive reading operators
      (codes "ann" ∷ [])
      []
      (claim_all reading false operators (codes "ann" ∷ []) [] demands []).0
claim_all-IsExclusive_example =
    claim_all-IsExclusive reading operators (codes "ann" ∷ []) [] demands []

abbrev order_of : Text → Text → Task
order_of operation window = record {
  operation_type = operation;
  time_windows = items (window ∷ []);
}

abbrev question : Qualification reading
question = record {
  order_index =
      (codes "t1", order_of (codes "MAP") (codes "1/4"))
      ∷ (codes "t2", order_of (codes "SPRAY") (codes "2/5"))
      ∷ (codes "t3", order_of (codes "HAUL") (codes "2/5"))
      ∷ [];
  operators_by_id = operators;
  free_capacity = [];
  allow_overlap = false;
  now_epoch = 0;
  horizon_end = 9;
}

abbrev cluster : ClusterSpec
cluster = record {
  cluster_id = codes "c1";
  depot_ref = codes "d1";
  operator_ref = codes "ann";
  allocated_prime_related = [];
  task_ids = codes "t1" ∷ codes "t2" ∷ codes "t3" ∷ [];
  task_operators = [];
  shared_backup_operators = [];
}

abbrev nothing_shared : Shares
nothing_shared = record { backup_busy = []; operator_claimants = []; operator_overlap = [] }

qualified_test :
    let (clusters, dropped) = apply_operator_qualification reading question (cluster ∷ []) in
    (clusters
      ≡ record cluster {
        task_ids = codes "t1" ∷ codes "t2" ∷ [];
        task_operators = (codes "t2", codes "bob") ∷ [];
      }
        ∷ [])
    × (length dropped ≡ 1)
unfolding apply_operator_qualification stamp_all qualify_all qualify_cluster note_claims claim_all
    needs_backup get contains put claim_backup_operator scan consider prime_operators
    intervals_overlap assign assign_one cluster_backups strip as_list parse_time_windows
    parse_window parse_windows split_interval demanded gather operator_demand_window merge_busy
    merge_sorted merge_from sorted_by
qualified_test = (refl, refl)

apply_operator_qualification-IsStaffed_example :
    let (after, dropped) = apply_operator_qualification reading question (cluster ∷ []) in
    All (IsStaffed reading question (prime_operators reading question (cluster ∷ []))) after
    × (task_count reading question after + length dropped
        ≡ task_count reading question (cluster ∷ []))
apply_operator_qualification-IsStaffed_example =
    apply_operator_qualification-IsStaffed reading question (cluster ∷ [])

qualify_cluster_conserves_example :
    let (qualified, dropped, after) =
      qualify_cluster reading question (codes "ann" ∷ []) cluster nothing_shared in
    ((contains (codes "t3") qualified.task_ids
        || reported reading question cluster (codes "t3") dropped)
      ≡ contains (codes "t3") cluster.task_ids)
    × (length qualified.task_ids + length dropped ≡ length cluster.task_ids)
qualify_cluster_conserves_example =
    qualify_cluster_conserves reading question cluster (codes "ann" ∷ []) nothing_shared
      (codes "t3")
