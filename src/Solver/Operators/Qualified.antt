-- ===== src/Solver/Operators/Qualified.antt =====
-- That the tasks a cluster keeps have a qualified operator: src/fl_op/solver/enforcement.py.
use mathlib.Core.Path.{subst}
use fl_op.Base.{
  ◌≡◌, refl, ◌∙◌, sym, Option, none, some, Bool, true, false, List, [], ◌∷◌, map, Text, text_eq,
  Bool-cases, inl, inr, if◌then◌else◌, All, All-append, All-map, ◌==◌, ◌⊎◌,
}
use fl_op.Base.Dict.{Dict, get, put, get-put}
use fl_op.Base.Strip.{is_empty}
use fl_op.Solver.Intervals.{Interval}
use fl_op.Solver.Operators.{
  Reading, ClusterSpec, BackupClaim, scan, claim_backup_operator, claim_all,
}
use fl_op.Solver.Operators.Claims.{MayBackUp, scan-Sound, choose-Sound}
use fl_op.Solver.Operators.Qualify.{
  Shares, Planned, planned, Qualification, operation_of, certified_for, prime_certified,
  cluster_backups, Assigned, backup_of, assign_one, assign, qualify_cluster, requests, needs_backup,
}

module _ (r : Reading) (q : Qualification r) (main_claimed : List Text) where
  abbrev MayBack : Text → Text → Type 0
  MayBack operation id = MayBackUp r main_claimed operation q.operators_by_id id

  -- Each claim is of an operator that may back its operation up.
  abbrev ClaimsHold : List (Text × List Interval) → List (BackupClaim r × List Interval) → Type 0
  ClaimsHold [] claims = Unit
  ClaimsHold (request ∷ asked) [] = Unit
  ClaimsHold (request ∷ asked) (claim ∷ claims) =
      ((id : Text) → claim.0.0 ≡ some id → MayBack request.0 id) × ClaimsHold asked claims

  claim_all-ClaimsHold :
      (asked : List (Text × List Interval)) (busy : Dict Text (List Interval))
      → ClaimsHold asked
          (claim_all r q.allow_overlap q.operators_by_id main_claimed q.free_capacity asked busy).0
  unfolding claim_all claim_backup_operator
  claim_all-ClaimsHold [] busy = tt
  claim_all-ClaimsHold ((operation, demand) ∷ asked) busy =
      let bests =
        scan r operation main_claimed busy demand q.free_capacity q.operators_by_id
          ((none, r.minus_one), (none, r.minus_one)) in
      let sound =
        scan-Sound r main_claimed operation q.operators_by_id busy demand q.free_capacity
          q.operators_by_id ((none, r.minus_one), (none, r.minus_one)) (λ o m. m)
          ((λ i e. cc), (λ i e. cc)) in
      (
        λ id e.
            (choose-Sound r main_claimed operation q.operators_by_id busy demand q.allow_overlap
              bests id sound e).0,
        claim_all-ClaimsHold asked _,
      )

  abbrev BackupsHold : Dict Text Text → Type 0
  BackupsHold backups =
      (operation id : Text) → get operation backups ≡ some id → MayBack operation id

  empty_get : (k id : Text) → get {V = Text} k [] ≡ some id → ⊥
  unfolding get
  empty_get k id e = cc

  some_inj : (a b : Text) → some a ≡ some b → a ≡ b
  some_inj a b s = cc

  put-BackupsHold :
      (backups : Dict Text Text) (operation id : Text)
      → BackupsHold backups
      → MayBack operation id
      → BackupsHold (put operation id backups)
  put-BackupsHold backups operation id hold back other found e =
      elim (Bool-cases (operation == other)) [
        | inl same ↦
            let at_other = get-put operation other id backups in
            let here : some id ≡ some found = sym (rw same at at_other) ∙ e in
            subst (λ o. MayBack o found) ((text_eq.agrees_iff operation other).0 same)
              (subst (MayBack operation) (some_inj id found here) back)
        | inr differs ↦
            let at_other = get-put operation other id backups in
            hold other found (sym (rw differs at at_other) ∙ e)
      ]

  cluster_backups-BackupsHold :
      (asked : List (Text × List Interval)) (claims : List (BackupClaim r × List Interval))
      (backups : Dict Text Text)
      → ClaimsHold asked claims
      → BackupsHold backups
      → BackupsHold (cluster_backups r q asked claims backups)
  unfolding cluster_backups
  cluster_backups-BackupsHold [] claims backups claimed hold = hold
  cluster_backups-BackupsHold (request ∷ asked) [] backups claimed hold = hold
  cluster_backups-BackupsHold (request ∷ asked) (((some id, overlap), demand) ∷ claims) backups
        claimed hold =
      cluster_backups-BackupsHold asked claims (put request.0 id backups) claimed.1
        (put-BackupsHold backups request.0 id hold (claimed.0 id refl))
  cluster_backups-BackupsHold (request ∷ asked) (((none, overlap), demand) ∷ claims) backups claimed
        hold =
      cluster_backups-BackupsHold asked claims backups claimed.1 hold

  module _ (cluster : ClusterSpec) where
    abbrev operation_at : Text → Option Text
    operation_at task_id = operation_of r q (get task_id q.order_index)

    abbrev CertifiedHere : Text → Type 0
    CertifiedHere task_id =
        certified_for r q (operation_at task_id) (prime_certified r q cluster) ≡ true

    -- An operator that is no cluster's prime one and is certified for the task's operation.
    abbrev BackedUpBy : Text → Text → Type 0
    BackedUpBy task_id id =
        (operation : Text) × (operation_at task_id ≡ some operation) × MayBack operation id

    -- A task of the cluster's own operator, or one that its map gives a backup operator.
    abbrev pub IsQualified : Dict Text Text → Text → Type 0
    IsQualified task_operators task_id =
        CertifiedHere task_id
        ⊎ ((id : Text) × (get task_id task_operators ≡ some id) × BackedUpBy task_id id)

    -- The operators that were assigned, and the tasks that were kept.
    abbrev Holds : Assigned r q → Type 0
    Holds a =
        ((task_id id : Text) → get task_id a.task_operators ≡ some id → BackedUpBy task_id id)
        × All (IsQualified a.task_operators) a.kept_ids

    put-BackedUp :
        (ops : Dict Text Text) (task_id id : Text)
        → BackedUpBy task_id id
        → ((other found : Text) → get other ops ≡ some found → BackedUpBy other found)
        → (other found : Text) → get other (put task_id id ops) ≡ some found
        → BackedUpBy other found
    put-BackedUp ops task_id id backed hold other found e =
        let at_other = get-put task_id other id ops in
        elim (Bool-cases (task_id == other)) [
          | inl same ↦
              subst (λ i. BackedUpBy other i) (some_inj id found (sym (rw same at at_other) ∙ e))
                (subst (λ t. BackedUpBy t id) ((text_eq.agrees_iff task_id other).0 same) backed)
          | inr differs ↦ hold other found (sym (rw differs at at_other) ∙ e)
        ]

    put-IsQualified :
        (ops : Dict Text Text) (task_id id other : Text)
        → BackedUpBy task_id id
        → IsQualified ops other
        → IsQualified (put task_id id ops) other
    put-IsQualified ops task_id id other backed (inl here) = inl here
    put-IsQualified ops task_id id other backed (inr (old, found, by)) =
        let at_other = get-put task_id other id ops in
        elim (Bool-cases (task_id == other)) [
          | inl same ↦ inr (
            id,
            rw same at at_other,
            subst (λ t. BackedUpBy t id) ((text_eq.agrees_iff task_id other).0 same) backed,
          )
          | inr differs ↦ inr (old, (rw differs at at_other) ∙ found, by)
        ]

    assign_one-Holds :
        (entry : Planned) (certified : Bool) (backup : Option Text) (a : Assigned r q)
        → (certified ≡ true → CertifiedHere entry.task_id)
        → ((id : Text) → backup ≡ some id → BackedUpBy entry.task_id id)
        → Holds a
        → Holds (assign_one r q cluster entry certified backup a)
    unfolding assign_one
    assign_one-Holds entry true backup a here by (backed, kept) =
        (backed, All-append _ a.kept_ids (entry.task_id ∷ []) kept (inl (here refl), tt))
    assign_one-Holds entry false (some id) a here by (backed, kept) =
        let backs = by id refl in
        let at_task = get-put entry.task_id entry.task_id id a.task_operators in
        let found : get entry.task_id (put entry.task_id id a.task_operators) ≡ some id =
          rw ((text_eq.agrees_iff entry.task_id entry.task_id).1 refl) at at_task in
        (
          put-BackedUp a.task_operators entry.task_id id backs backed,
          All-append _ a.kept_ids (entry.task_id ∷ [])
              (All-map a.kept_ids
                (λ other. put-IsQualified a.task_operators entry.task_id id other backs) kept)
              (inr (id, found, backs), tt),
        )
    assign_one-Holds entry false none a here by hold = hold

    backup_of-BackedUp :
        (task_id : Text) (operation : Option Text) (backups : Dict Text Text) (id : Text)
        → operation_at task_id ≡ operation
        → BackupsHold backups
        → backup_of r q operation backups ≡ some id
        → BackedUpBy task_id id
    backup_of-BackedUp task_id (some operation) backups id here hold e =
        (operation, here, hold operation id e)
    backup_of-BackedUp task_id none backups id here hold e = cc

    assign-Holds :
        (backups : Dict Text Text) (task_ids : List Text) (a : Assigned r q)
        → BackupsHold backups
        → Holds a
        → Holds (
            assign r q cluster backups (map (planned r q (prime_certified r q cluster)) task_ids) a)
    unfolding assign
    assign-Holds backups [] a hold held = held
    assign-Holds backups (task_id ∷ task_ids) a hold held =
        let entry = planned r q (prime_certified r q cluster) task_id in
        assign-Holds backups task_ids _ hold (
          assign_one-Holds entry entry.certified_here (backup_of r q entry.operation backups) a
            (λ c. c) (λ id. backup_of-BackedUp task_id (operation_at task_id) backups id refl hold)
            held)

    -- Without an assignment, the kept tasks are certified whatever the map holds.
    kept_map :
        (ops old : Dict Text Text) (task_id : Text)
        → IsQualified ops task_id
        → IsQualified (if is_empty ops then old else ops) task_id
    kept_map ops old task_id (inl here) = inl here
    kept_map [] old task_id (inr (id, found, by)) = absurd (empty_get task_id id found)
    kept_map (o ∷ ops) old task_id (inr by) = inr by

    -- Every task that a cluster keeps is of an operation that the cluster's own operator is
    -- certified for, or the cluster's map gives it an operator that is certified for it and is no
    -- cluster's own.
    pub qualify_cluster-IsQualified :
        (shares : Shares)
        → let qualified = (qualify_cluster r q main_claimed cluster shares).0 in
          All (IsQualified qualified.task_operators) qualified.task_ids
    unfolding qualify_cluster
    qualify_cluster-IsQualified shares =
        let plan = map (planned r q (prime_certified r q cluster)) cluster.task_ids in
        let asked = requests r q (needs_backup r q plan []) in
        let claims =
          (claim_all r q.allow_overlap q.operators_by_id main_claimed q.free_capacity asked
            shares.backup_busy).0 in
        let hold =
          cluster_backups-BackupsHold asked claims []
            (claim_all-ClaimsHold asked shares.backup_busy)
            (λ operation id e. absurd (empty_get operation id e)) in
        let held =
          assign-Holds (cluster_backups r q asked claims []) cluster.task_ids
            (record { kept_ids = []; task_operators = []; infeasible = [] }) hold
            ((λ task_id id e. absurd (empty_get task_id id e)), tt) in
        All-map _ (λ task_id. kept_map _ cluster.task_operators task_id) held.1
