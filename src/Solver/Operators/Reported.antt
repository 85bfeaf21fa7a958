-- ===== src/Solver/Operators/Reported.antt =====
-- That no task is lost: the second pass of src/fl_op/solver/enforcement.py.
use fl_op.Base.{
  any-append, ℕ, ◌+◌, ◌≡◌, ◌∙◌, Option, none, some, Bool, true, false, ◌||◌, List, [], ◌∷◌, ◌++◌,
  map, Text, text_eq, contains, contains-append, arith, any, length, length-append, ◌==◌,
}
use fl_op.Base.Dict.{Dict}
use fl_op.Solver.Operators.{Reading, ClusterSpec, Unqualified}
use fl_op.Solver.Operators.Qualify.{
  Shares, Planned, planned, Qualification, backup_of, Assigned, assign_one, assign, qualify_cluster,
}

module _ (r : Reading) (q : Qualification r) (cluster : ClusterSpec) where
  -- Whether a task is among the dropped ones.
  abbrev pub reported : Text → List Unqualified → Bool
  reported task_id = any (λ (u : Unqualified). u.task_id == task_id)

  abbrev somewhere : Text → Assigned r q → Bool
  somewhere t a = contains t a.kept_ids || reported t a.infeasible

  abbrev total : Assigned r q → ℕ
  total a = length a.kept_ids + length a.infeasible

  kept_lem :
      (t task_id : Text) (kept : List Text) (dropped : List Unqualified)
      → (contains t (kept ++ task_id ∷ []) || reported t dropped)
        ≡ ((contains t kept || reported t dropped) || task_id == t)
  unfolding contains
  kept_lem t task_id kept dropped = ground (
    arith,
    contains-append t kept (task_id ∷ []),
    text_eq.agrees_iff t task_id,
    text_eq.agrees_iff task_id t,
  )

  somewhere-assign_one :
      (t : Text) (entry : Planned) (certified : Bool) (backup : Option Text) (a : Assigned r q)
      → somewhere t (assign_one r q cluster entry certified backup a)
        ≡ (somewhere t a || entry.task_id == t)
  unfolding assign_one
  somewhere-assign_one t entry true backup a = kept_lem t entry.task_id a.kept_ids a.infeasible
  somewhere-assign_one t entry false (some id) a = kept_lem t entry.task_id a.kept_ids a.infeasible
  somewhere-assign_one t entry false none a =
      let dropped : Unqualified = record {
        task_id = entry.task_id;
        cluster_id = cluster.cluster_id;
        operator_ref = cluster.operator_ref;
        operation = entry.operation;
      } in
      let split = any-append (λ (u : Unqualified). u.task_id == t) a.infeasible (dropped ∷ []) in
      rw split (ground arith)

  total-assign_one :
      (entry : Planned) (certified : Bool) (backup : Option Text) (a : Assigned r q)
      → total (assign_one r q cluster entry certified backup a) ≡ total a + 1
  unfolding assign_one
  total-assign_one entry true backup a =
      omega (arith, length-append a.kept_ids (entry.task_id ∷ []))
  total-assign_one entry false (some id) a =
      omega (arith, length-append a.kept_ids (entry.task_id ∷ []))
  total-assign_one entry false none a = omega (arith, length-append a.infeasible (_ ∷ []))

  assign_lem :
      (t : Text) (certified : List Text) (backups : Dict Text Text) (task_ids : List Text)
      (a : Assigned r q)
      → let final = assign r q cluster backups (map (planned r q certified) task_ids) a in
        (somewhere t final ≡ (somewhere t a || contains t task_ids))
        × (total final ≡ total a + length task_ids)
  unfolding assign contains
  assign_lem t certified backups [] a = (ground arith, omega arith)
  assign_lem t certified backups (task_id ∷ task_ids) a =
      let entry = planned r q certified task_id in
      let backup = backup_of r q entry.operation backups in
      let next = assign_one r q cluster entry entry.certified_here backup a in
      let (found, count) = assign_lem t certified backups task_ids next in
      (
        found
            ∙ rw (somewhere-assign_one t entry entry.certified_here backup a)
                (ground (arith, text_eq.agrees_iff t task_id, text_eq.agrees_iff task_id t)),
        omega (arith, count, total-assign_one entry entry.certified_here backup a),
      )

  -- Qualifying a cluster loses no task: a task is one of the cluster's exactly if it is kept or
  -- reported, and the kept and the reported tasks together are as many as the cluster had.
  pub qualify_cluster_conserves :
      (main_claimed : List Text) (shares : Shares) (task_id : Text)
      → let (qualified, dropped, after) = qualify_cluster r q main_claimed cluster shares in
        ((contains task_id qualified.task_ids || reported task_id dropped)
          ≡ contains task_id cluster.task_ids)
        × (length qualified.task_ids + length dropped ≡ length cluster.task_ids)
  unfolding qualify_cluster contains
  qualify_cluster_conserves main_claimed shares task_id =
      let (found, count) = assign_lem task_id _ _ cluster.task_ids _ in
      (found, omega (arith, count))
