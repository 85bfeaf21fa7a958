-- ===== src/Relations/Outcomes/Greatest.antt =====
-- What the net leaves standing: src/fl_op/solver/task_relations.py.
use fl_op.Base.{
  ◌≢◌, length-map, ℕ, zero, suc, ◌+◌, ◌<◌, ◌≡◌, refl, Option, none, some, true, false, not, List,
  [], ◌∷◌, ◌++◌, length, length-append, Text, text_eq, contains, keep, map, arith, inl, inr, ◌⊎◌,
  ◌↔◌, Bool-cases,
}
use fl_op.Base.Strip.{is_empty}
use fl_op.Base.Members.{In, In-keep, In-keep_of, In-map, In-append_left, In-append_right}
use fl_op.Relations.Order.{Order, Infeasible}
use fl_op.Relations.Outcomes.{
  Dispatch, dispatch_eq, predecessor_of, task_ids, served, violates, not_served, add_extra,
  withdraw, enforce_dependency_outcomes, behind,
}
use fl_op.Relations.Outcomes.Standing.{
  remove_all-keep, length-keep_both, Sub, violates_mono, keep_none,
}

module _ (orders : List Order) where
  -- No record's predecessor is part of the input and left unserved.
  abbrev pub IsSafe : List Dispatch → Type 0
  IsSafe dispatch = (d : Dispatch) → In d dispatch → violates orders dispatch d ≡ false

  -- What the loop makes of the records that it starts with.
  record Enforced (start left : List Dispatch) (extra : List Infeasible) : Type 0 where
    safe : IsSafe left
    sub : Sub left start
    greatest : (plan : List Dispatch) → Sub plan start → IsSafe plan → Sub plan left
    sides :
        (d : Dispatch)
        → In d start
        → In d left ⊎ (In (not_served orders d) extra × (violates orders left d ≡ true))
    balanced : length left + length extra ≡ length start

  abbrev EnforcedResult : List Dispatch → Option (List Dispatch × List Infeasible) → Type 0
  EnforcedResult start none = ⊥
  EnforcedResult start (some (left, extra)) = Enforced start left extra

  abbrev violating : List Dispatch → List Dispatch
  violating dispatch = keep (violates orders dispatch) dispatch

  abbrev standing : List Dispatch → List Dispatch
  standing dispatch = keep (λ d. not (violates orders dispatch d)) dispatch

  Enforced-quiet :
      (start : List Dispatch) → is_empty (violating start) ≡ true → Enforced start start []
  Enforced-quiet start quiet = record {
    safe = λ d m. keep_none (violates orders start) start d quiet m;
    sub = λ d m. m;
    greatest = λ plan sub safe. sub;
    sides = λ d m. inl m;
    balanced = omega arith;
  }

  -- A safe plan within the records keeps its records through a round.
  plan_stands :
      (start plan : List Dispatch) → Sub plan start → IsSafe plan → Sub plan (standing start)
  plan_stands start plan sub safe d m =
      In-keep_of (λ x. not (violates orders start x)) d start (sub d m)
        (ground (arith, safe d m, violates_mono orders plan start d sub))

  Enforced-round :
      (start left : List Dispatch) (extra : List Infeasible)
      → Enforced (standing start) left extra
      → Enforced start left (map (not_served orders) (violating start) ++ extra)
  Enforced-round start left extra e = record {
    safe = e.safe;
    sub = λ d m. sub_start d (e.sub d m);
    greatest = λ plan sub safe. e.greatest plan (plan_stands start plan sub safe) safe;
    sides = λ d m. elim (Bool-cases (violates orders start d)) [
      | inl v ↦ inr (
        In-append_left _ (map (not_served orders) (violating start)) extra (
            In-map (not_served orders) d (violating start)
              (In-keep_of (violates orders start) d start m v)),
        violates_mono orders left start d (λ x i. sub_start x (e.sub x i)) v,
      )
      | inr ok ↦
          elim (e.sides d (In-keep_of (λ x. not (violates orders start x)) d start m (rw ok))) [
            | inl l ↦ inl l
            | inr (r, v) ↦
                inr (In-append_right _ (map (not_served orders) (violating start)) extra r, v)
          ]
    ];
    balanced = omega (
      arith,
      e.balanced,
      length-keep_both (violates orders start) start,
      length-append (map (not_served orders) (violating start)) extra,
      length-map (not_served orders) (violating start),
    );
  }
    where
      sub_start : Sub (standing start) start
      sub_start d m = (In-keep (λ x. not (violates orders start x)) d start m).0

  enforced_add :
      (start : List Dispatch) (r : Option (List Dispatch × List Infeasible))
      → EnforcedResult (standing start) r
      → EnforcedResult start (add_extra (map (not_served orders) (violating start)) r)
  enforced_add start none e = e
  enforced_add start (some (left, extra)) e = Enforced-round start left extra e

  standing-lt :
      (start : List Dispatch) (rounds : ℕ)
      → is_empty (violating start) ≡ false
      → length start < suc rounds
      → length (standing start) < rounds
  standing-lt start rounds busy h =
      omega (arith, length-keep_both (violates orders start) start, pos (violating start) busy)
    where
      pos : (l : List Dispatch) → is_empty l ≡ false → 0 < length l
      pos [] e = cc
      pos (x ∷ l) e = omega arith

  withdraw-Enforced :
      (rounds : ℕ) (start : List Dispatch)
      → length start < rounds
      → EnforcedResult start (withdraw rounds orders start)
  unfolding withdraw
  withdraw-Enforced zero start h = absurd (omega arith)
  withdraw-Enforced (suc rounds) start h = elim (Bool-cases (is_empty (violating start))) [
    | inl quiet ↦ rw quiet (Enforced-quiet start quiet)
    | inr busy ↦ rw busy (
        rw (remove_all-keep (violates orders start) start) (
          enforced_add start (withdraw rounds orders (standing start))
            (withdraw-Enforced rounds (standing start) (standing-lt start rounds busy h))))
  ]

-- Every record whose predecessor is part of the input is served together with it.
abbrev pub RespectsPrecedence : List Order → List Dispatch → Type 0
RespectsPrecedence orders plan =
    (d : Dispatch)
    → In d plan
    → predecessor_of orders d.task_id ≢ []
    → contains (predecessor_of orders d.task_id) (task_ids orders) ≡ true
    → contains (predecessor_of orders d.task_id) (served plan) ≡ true

not_empty : (t : Text) → t ≢ [] → is_empty t ≡ false
not_empty [] h = absurd (h refl)
not_empty (c ∷ t) h = refl

precedence_iff :
    (orders : List Order) (plan : List Dispatch)
    → RespectsPrecedence orders plan ↔ IsSafe orders plan
unfolding violates
precedence_iff orders plan = (
  λ r d m. ground (arith, r d m, not_empty (predecessor_of orders d.task_id)),
  λ s d m n c. ground (arith, s d m, not_empty (predecessor_of orders d.task_id) n),
)

-- What the net promises of its result `r`.
abbrev pub IsGreatest :
    List Dispatch → List Infeasible → List Order → Option (List Dispatch × List Infeasible) → Type 0
IsGreatest dispatch infeasible orders r =
    (left : List Dispatch) × (extra : List Infeasible) × (r ≡ some (left, infeasible ++ extra))
    × Sub left dispatch
    × RespectsPrecedence orders left
    × ((plan : List Dispatch) → Sub plan dispatch → RespectsPrecedence orders plan → Sub plan left)
    × ((d : Dispatch) → In d dispatch → In d left ⊎ In (not_served orders d) extra)
    × (length left + length extra ≡ length dispatch)

enforced-IsGreatest :
    (dispatch : List Dispatch) (infeasible : List Infeasible) (orders : List Order)
    (r : Option (List Dispatch × List Infeasible))
    → EnforcedResult orders dispatch r
    → IsGreatest dispatch infeasible orders (behind infeasible r)
enforced-IsGreatest dispatch infeasible orders none e = absurd e
enforced-IsGreatest dispatch infeasible orders (some (left, extra)) e = (
  left,
  extra,
  refl,
  e.sub,
  (precedence_iff orders left).1 e.safe,
  λ plan sub r. e.greatest plan sub ((precedence_iff orders plan).0 r),
  λ d m. elim (e.sides d m) [ inl l ↦ inl l | inr (r, _) ↦ inr r ],
  e.balanced,
)

-- The net ends. It leaves the largest part of the dispatch that respects precedence: that part does
-- so, and it has every record of every part that does. Each record that is withdrawn is reported
-- behind the exclusions that came in, and as many records are reported as are withdrawn.
pub enforce_dependency_outcomes-IsGreatest :
    (dispatch : List Dispatch) (infeasible : List Infeasible) (orders : List Order)
    → IsGreatest dispatch infeasible orders (enforce_dependency_outcomes dispatch infeasible orders)
unfolding enforce_dependency_outcomes
enforce_dependency_outcomes-IsGreatest dispatch infeasible orders =
    enforced-IsGreatest dispatch infeasible orders
      (withdraw (suc (length dispatch)) orders dispatch)
      (withdraw-Enforced orders (suc (length dispatch)) dispatch (omega arith))
