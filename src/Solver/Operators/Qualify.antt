-- ===== src/Solver/Operators/Qualify.antt =====
-- `apply_operator_qualification` of src/fl_op/solver/enforcement.py.
use fl_op.Base.{
  ℕ, Option, none, some, or_else, Bool, true, false, ◌&&◌, List, [], ◌∷◌, ◌++◌, map, Text, text_eq,
  contains, if◌then◌else◌, any, ◌==◌,
}
use fl_op.Base.Dict.{Dict, get, put}
use fl_op.Base.Strip.{is_empty}
use fl_op.Solver.Intervals.{Interval}
use fl_op.Solver.Operators.{
  Reading, Task, Operators, ClusterSpec, Unqualified, BackupClaim, operator_demand_window,
  claim_all,
}

-- What the pass carries from cluster to cluster. `operator_overlap` is a set, in order of insertion.
pub record Shares : Type 0 where
  pub backup_busy : Dict Text (List Interval)
  pub operator_claimants : Dict Text (List Text)
  pub operator_overlap : List Text

-- `(task_id, operation, certified_here)`
pub record Planned : Type 0 where
  pub task_id : Text
  pub operation : Option Text
  pub certified_here : Bool

-- The arguments that do not change, with `now_epoch` and `horizon_end`.
pub record Qualification (r : Reading) : Type 0 where
  pub order_index : Dict Text Task
  pub operators_by_id : Operators
  pub free_capacity : Dict Text r.Float
  pub allow_overlap : Bool
  pub now_epoch : ℕ
  pub horizon_end : ℕ

module _ (r : Reading) (q : Qualification r) where
  abbrev or_nothing : Text → Option Text
  or_nothing [] = none
  or_nothing (c ∷ s) = some (c ∷ s)

  -- `str(getattr(order, "operation_type", "") or "").upper() or None`
  abbrev pub operation_of : Option Task → Option Text
  operation_of none = none
  operation_of (some order) = or_nothing (r.upper order.operation_type)

  abbrev pub certified_for : Option Text → List Text → Bool
  certified_for none certified = false
  certified_for (some operation) certified = contains operation certified

  -- `ops_set(operator.certified_operations)` of the cluster's operator
  abbrev pub prime_certified : ClusterSpec → List Text
  prime_certified cluster = or_else (get cluster.operator_ref q.operators_by_id) []

  -- The first pass: the plan, and the tasks of each operation that needs a backup.
  abbrev pub planned : List Text → Text → Planned
  planned certified task_id =
      let operation = operation_of (get task_id q.order_index) in
      record {
        task_id = task_id;
        operation = operation;
        certified_here = certified_for operation certified;
      }

  abbrev need : Planned → Dict Text (List Text) → Dict Text (List Text)
  need entry needs = go entry.certified_here entry.operation
    where
      go : Bool → Option Text → Dict Text (List Text)
      go false (some operation) =
          put operation (or_else (get operation needs) [] ++ entry.task_id ∷ []) needs
      go _ _ = needs

  unfoldable pub needs_backup : List Planned → Dict Text (List Text) → Dict Text (List Text)
  needs_backup [] needs = needs
  needs_backup (entry ∷ plan) needs = needs_backup plan (need entry needs)

  abbrev pub requests : Dict Text (List Text) → List (Text × List Interval)
  requests = map (λ (n : Text × List Text). (
    n.0,
    operator_demand_window r q.now_epoch q.horizon_end
        (map (λ task_id. get task_id q.order_index) n.1),
  ))

  -- The claims of a cluster's operations: `cluster_backups`, and the shares.
  unfoldable pub cluster_backups :
      List (Text × List Interval)
      → List (BackupClaim r × List Interval)
      → Dict Text Text
      → Dict Text Text
  cluster_backups [] claims backups = backups
  cluster_backups (request ∷ requests) [] backups = backups
  cluster_backups (request ∷ requests) (((some id, overlap), demand) ∷ claims) backups =
      cluster_backups requests claims (put request.0 id backups)
  cluster_backups (request ∷ requests) (((none, overlap), demand) ∷ claims) backups =
      cluster_backups requests claims backups

  abbrev pub add_once : Text → List Text → List Text
  add_once x xs = if contains x xs then xs else xs ++ x ∷ []

  unfoldable pub note_claims : Text → List (BackupClaim r × List Interval) → Shares → Shares
  note_claims cluster_id [] shares = shares
  note_claims cluster_id (((none, overlap), demand) ∷ claims) shares =
      note_claims cluster_id claims shares
  note_claims cluster_id (((some id, overlap), demand) ∷ claims) shares =
      note_claims cluster_id claims (record shares {
        operator_claimants =
            put id (add_once cluster_id (or_else (get id shares.operator_claimants) []))
              shares.operator_claimants;
        operator_overlap =
            if overlap then add_once id shares.operator_overlap else shares.operator_overlap;
      })

  -- The second pass: the tasks that are kept, the operators of those that need a backup, and the
  -- tasks that are dropped.
  pub record Assigned : Type 0 where
    pub kept_ids : List Text
    pub task_operators : Dict Text Text
    pub infeasible : List Unqualified

  abbrev pub backup_of : Option Text → Dict Text Text → Option Text
  backup_of none backups = none
  backup_of (some operation) backups = get operation backups

  unfoldable pub assign_one : ClusterSpec → Planned → Bool → Option Text → Assigned → Assigned
  assign_one cluster entry true backup a = record a { kept_ids = a.kept_ids ++ entry.task_id ∷ [] }
  assign_one cluster entry false (some id) a = record a {
    kept_ids = a.kept_ids ++ entry.task_id ∷ [];
    task_operators = put entry.task_id id a.task_operators;
  }
  assign_one cluster entry false none a = record a {
    infeasible =
        a.infeasible
        ++ record {
          task_id = entry.task_id;
          cluster_id = cluster.cluster_id;
          operator_ref = cluster.operator_ref;
          operation = entry.operation;
        }
          ∷ [];
  }

  unfoldable pub assign : ClusterSpec → Dict Text Text → List Planned → Assigned → Assigned
  assign cluster backups [] a = a
  assign cluster backups (entry ∷ plan) a =
      assign cluster backups plan
        (assign_one cluster entry entry.certified_here (backup_of entry.operation backups) a)

  -- One cluster that has resources.
  unfoldable pub qualify_cluster :
      List Text → ClusterSpec → Shares → ClusterSpec × List Unqualified × Shares
  qualify_cluster main_claimed cluster shares =
      let plan = map (planned (prime_certified cluster)) cluster.task_ids in
      let asked = requests (needs_backup plan []) in
      let (claims, busy) =
        claim_all r q.allow_overlap q.operators_by_id main_claimed q.free_capacity asked
          shares.backup_busy in
      let a =
        assign cluster (cluster_backups asked claims []) plan
          (record { kept_ids = []; task_operators = []; infeasible = [] }) in
      (
        record cluster {
          task_ids = a.kept_ids;
          task_operators =
              if is_empty a.task_operators then cluster.task_operators else a.task_operators;
        },
        a.infeasible,
        note_claims cluster.cluster_id claims (record shares { backup_busy = busy }),
      )

  unfoldable pub qualify_all :
      List Text → List ClusterSpec → Shares → List ClusterSpec × List Unqualified × Shares
  qualify_all main_claimed [] shares = ([], [], shares)
  qualify_all main_claimed (cluster ∷ clusters) shares =
      let idle = is_empty cluster.allocated_prime_related && is_empty cluster.operator_ref in
      let (cluster', dropped, shares') = qualify_cluster main_claimed cluster shares in
      let (others, infeasible, final) =
        qualify_all main_claimed clusters (if idle then shares else shares') in
      if idle
      then (cluster ∷ others, infeasible, final)
      else (cluster' ∷ others, dropped ++ infeasible, final)

  -- `clusters_by_id`: the last cluster of an id is stamped
  unfoldable pub stamp : Text → Text → List ClusterSpec → List ClusterSpec
  stamp claimant_id operator_id [] = []
  stamp claimant_id operator_id (cluster ∷ clusters) =
      let later = stamp claimant_id operator_id clusters in
      let stamped = record cluster {
        shared_backup_operators = add_once operator_id cluster.shared_backup_operators;
      } in
      if any (λ (c : ClusterSpec). c.cluster_id == claimant_id) clusters
      then cluster ∷ later
      else if cluster.cluster_id == claimant_id
      then stamped ∷ clusters
      else cluster ∷ clusters

  unfoldable pub stamp_each : List Text → Text → List ClusterSpec → List ClusterSpec
  stamp_each [] operator_id clusters = clusters
  stamp_each (claimant_id ∷ claimants) operator_id clusters =
      stamp_each claimants operator_id (stamp claimant_id operator_id clusters)

  unfoldable pub stamp_all : List Text → Dict Text (List Text) → List ClusterSpec → List ClusterSpec
  stamp_all [] claimants clusters = clusters
  stamp_all (operator_id ∷ overlap) claimants clusters =
      stamp_all overlap claimants
        (stamp_each (or_else (get operator_id claimants) []) operator_id clusters)

  unfoldable pub prime_operators : List ClusterSpec → List Text
  prime_operators [] = []
  prime_operators (cluster ∷ clusters) =
      let others = prime_operators clusters in
      if is_empty cluster.operator_ref then others else cluster.operator_ref ∷ others

  -- `apply_operator_qualification`: the clusters as it leaves them, and the tasks it drops
  unfoldable pub apply_operator_qualification :
      List ClusterSpec → List ClusterSpec × List Unqualified
  apply_operator_qualification clusters =
      let (qualified, infeasible, final) =
        qualify_all (prime_operators clusters) clusters
          (record { backup_busy = []; operator_claimants = []; operator_overlap = [] }) in
      (stamp_all final.operator_overlap final.operator_claimants qualified, infeasible)
