-- ===== src/Solver/Operators/Pass.antt =====
-- The whole pass `apply_operator_qualification` of src/fl_op/solver/enforcement.py.
use fl_op.Base.{
  ℕ, ◌+◌, ◌≡◌, refl, ◌∙◌, Bool, true, ◌&&◌, List, [], ◌∷◌, Text, text_eq, arith, Bool-cases, inl,
  inr, any, All, length, length-append, ◌==◌, ◌⊎◌,
}
use fl_op.Base.Dict.{Dict}
use fl_op.Base.Strip.{is_empty}
use fl_op.Solver.Operators.{Reading, ClusterSpec}
use fl_op.Solver.Operators.Qualify.{
  Shares, Qualification, qualify_cluster, qualify_all, stamp, stamp_each, stamp_all,
  prime_operators, add_once, apply_operator_qualification,
}
use fl_op.Solver.Operators.Qualified.{IsQualified, qualify_cluster-IsQualified}
use fl_op.Solver.Operators.Reported.{qualify_cluster_conserves}

module _ (r : Reading) (q : Qualification r) where
  abbrev pub idle : ClusterSpec → Bool
  idle c = is_empty c.allocated_prime_related && is_empty c.operator_ref

  -- A cluster without resources, or one whose tasks all have a qualified operator.
  abbrev pub IsStaffed : List Text → ClusterSpec → Type 0
  IsStaffed main_claimed c =
      (idle c ≡ true) ⊎ All (IsQualified r q main_claimed c c.task_operators) c.task_ids

  -- The tasks of all clusters.
  abbrev pub task_count : List ClusterSpec → ℕ
  task_count [] = 0
  task_count (c ∷ clusters) = length c.task_ids + task_count clusters

  abbrev with_shared : Text → ClusterSpec → ClusterSpec
  with_shared operator_id c = record c {
    shared_backup_operators = add_once r q operator_id c.shared_backup_operators;
  }

  module _ (main_claimed : List Text) where
    qualify_all-IsStaffed :
        (clusters : List ClusterSpec) (shares : Shares)
        → All (IsStaffed main_claimed) (qualify_all r q main_claimed clusters shares).0
    unfolding qualify_all qualify_cluster
    qualify_all-IsStaffed [] shares = tt
    qualify_all-IsStaffed (c ∷ clusters) shares = elim (Bool-cases (idle c)) [
      | inl rests ↦ rw rests (inl rests, qualify_all-IsStaffed clusters shares)
      | inr works ↦ rw works (
        inr (qualify_cluster-IsQualified r q main_claimed c shares),
        qualify_all-IsStaffed clusters (qualify_cluster r q main_claimed c shares).2,
      )
    ]

    stamp-IsStaffed :
        (claimant_id operator_id : Text) (clusters : List ClusterSpec)
        → All (IsStaffed main_claimed) clusters
        → All (IsStaffed main_claimed) (stamp r q claimant_id operator_id clusters)
    unfolding stamp
    stamp-IsStaffed claimant_id operator_id [] staffed = tt
    stamp-IsStaffed claimant_id operator_id (c ∷ clusters) (here, rest) =
        elim (Bool-cases (any (λ (d : ClusterSpec). d.cluster_id == claimant_id) clusters)) [
          | inl later ↦ rw later (here, stamp-IsStaffed claimant_id operator_id clusters rest)
          | inr last ↦ elim (Bool-cases (c.cluster_id == claimant_id)) [
            | inl named ↦ rw (last, named) (stays c here, rest)
            | inr other ↦ rw (last, other) (here, rest)
          ]
        ]
      where
        stays :
            (c : ClusterSpec)
            → IsStaffed main_claimed c
            → IsStaffed main_claimed (with_shared operator_id c)
        stays c staffed = staffed

    stamp_each-IsStaffed :
        (claimants : List Text) (operator_id : Text) (clusters : List ClusterSpec)
        → All (IsStaffed main_claimed) clusters
        → All (IsStaffed main_claimed) (stamp_each r q claimants operator_id clusters)
    unfolding stamp_each
    stamp_each-IsStaffed [] operator_id clusters staffed = staffed
    stamp_each-IsStaffed (claimant_id ∷ claimants) operator_id clusters staffed =
        stamp_each-IsStaffed claimants operator_id _
          (stamp-IsStaffed claimant_id operator_id clusters staffed)

    stamp_all-IsStaffed :
        (overlap : List Text) (claimants : Dict Text (List Text)) (clusters : List ClusterSpec)
        → All (IsStaffed main_claimed) clusters
        → All (IsStaffed main_claimed) (stamp_all r q overlap claimants clusters)
    unfolding stamp_all
    stamp_all-IsStaffed [] claimants clusters staffed = staffed
    stamp_all-IsStaffed (operator_id ∷ overlap) claimants clusters staffed =
        stamp_all-IsStaffed overlap claimants _
          (stamp_each-IsStaffed _ operator_id clusters staffed)

    task_count-qualify_all :
        (clusters : List ClusterSpec) (shares : Shares)
        → let (qualified, dropped, final) = qualify_all r q main_claimed clusters shares in
          task_count qualified + length dropped ≡ task_count clusters
    unfolding qualify_all
    task_count-qualify_all [] shares = omega arith
    task_count-qualify_all (c ∷ clusters) shares =
        let (one, dropped, next) = qualify_cluster r q main_claimed c shares in
        elim (Bool-cases (idle c)) [
          | inl rests ↦ rw rests (omega (arith, task_count-qualify_all clusters shares))
          | inr works ↦ rw works (
              omega (
                arith,
                length-append dropped (qualify_all r q main_claimed clusters next).1,
                (qualify_cluster_conserves r q c main_claimed shares []).1,
                task_count-qualify_all clusters next,
              ))
        ]

  task_count-stamp :
      (claimant_id operator_id : Text) (clusters : List ClusterSpec)
      → task_count (stamp r q claimant_id operator_id clusters) ≡ task_count clusters
  unfolding stamp
  task_count-stamp claimant_id operator_id [] = refl
  task_count-stamp claimant_id operator_id (c ∷ clusters) =
      elim (Bool-cases (any (λ (d : ClusterSpec). d.cluster_id == claimant_id) clusters)) [
        | inl later ↦ rw later (omega (arith, task_count-stamp claimant_id operator_id clusters))
        | inr last ↦ elim (Bool-cases (c.cluster_id == claimant_id)) [
          | inl named ↦ rw (last, named) refl
          | inr other ↦ rw (last, other) refl
        ]
      ]

  task_count-stamp_each :
      (claimants : List Text) (operator_id : Text) (clusters : List ClusterSpec)
      → task_count (stamp_each r q claimants operator_id clusters) ≡ task_count clusters
  unfolding stamp_each
  task_count-stamp_each [] operator_id clusters = refl
  task_count-stamp_each (claimant_id ∷ claimants) operator_id clusters =
      task_count-stamp_each claimants operator_id _
      ∙ task_count-stamp claimant_id operator_id clusters

  task_count-stamp_all :
      (overlap : List Text) (claimants : Dict Text (List Text)) (clusters : List ClusterSpec)
      → task_count (stamp_all r q overlap claimants clusters) ≡ task_count clusters
  unfolding stamp_all
  task_count-stamp_all [] claimants clusters = refl
  task_count-stamp_all (operator_id ∷ overlap) claimants clusters =
      task_count-stamp_all overlap claimants _ ∙ task_count-stamp_each _ operator_id clusters

  -- After the pass every cluster with resources is staffed: each of its tasks is of an operation
  -- that the cluster's own operator is certified for, or the cluster's map gives it an operator that
  -- is certified for it and is no cluster's own. No task is lost: the tasks of the clusters and the
  -- reported ones together are as many as before.
  pub apply_operator_qualification-IsStaffed :
      (clusters : List ClusterSpec)
      → let (after, dropped) = apply_operator_qualification r q clusters in
        All (IsStaffed (prime_operators r q clusters)) after
        × (task_count after + length dropped ≡ task_count clusters)
  unfolding apply_operator_qualification
  apply_operator_qualification-IsStaffed clusters =
      let main_claimed = prime_operators r q clusters in
      let none_shared : Shares = record {
        backup_busy = [];
        operator_claimants = [];
        operator_overlap = [];
      } in
      let (qualified, dropped, final) = qualify_all r q main_claimed clusters none_shared in
      (
        stamp_all-IsStaffed main_claimed final.operator_overlap final.operator_claimants qualified
            (qualify_all-IsStaffed main_claimed clusters none_shared),
        omega (
          arith,
          task_count-stamp_all final.operator_overlap final.operator_claimants qualified,
          task_count-qualify_all main_claimed clusters none_shared,
        ),
      )
