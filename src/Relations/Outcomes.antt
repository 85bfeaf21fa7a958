-- ===== src/Relations/Outcomes.antt =====
-- The net after the solve: `enforce_dependency_outcomes` of src/fl_op/solver/task_relations.py.
pub mod Standing
pub mod Greatest
use fl_op.Base.{
  ℕ, zero, suc, ◌≡◌, ◌↔◌, Option, none, some, Bool, true, false, ◌&&◌, not, List, [], ◌∷◌, ◌++◌,
  length, Text, text_eq, Keyed, ◌==◌, contains, codes, or_else, keep, map, if◌then◌else◌, arith,
}
use fl_op.Base.Dict.{Dict, get, put}
use fl_op.Base.Strip.{is_empty}
use fl_op.Relations.Order.{Order, Infeasible, predecessor_unserved}

-- A dispatch record: its task, its cluster (empty where it has none), and all its other fields.
pub record Dispatch : Type 0 where
  pub task_id : Text
  pub cluster_id : Text
  pub details : Text

unfoldable pub dispatch_beq : Dispatch → Dispatch → Bool
dispatch_beq a b =
    a.task_id == b.task_id && (a.cluster_id == b.cluster_id && a.details == b.details)

pub dispatch_beq_iff : (a b : Dispatch) → (dispatch_beq a b ≡ true) ↔ (a ≡ b)
unfolding dispatch_beq
dispatch_beq_iff a b = ground (
  arith,
  text_eq.agrees_iff a.task_id b.task_id,
  text_eq.agrees_iff a.cluster_id b.cluster_id,
  text_eq.agrees_iff a.details b.details,
)

instance abbrev pub dispatch_eq : Keyed Dispatch
dispatch_eq = record { agrees = dispatch_beq; agrees_iff = dispatch_beq_iff }

-- `{o.task_id: ... for o in orders}`, over the entries so far: a later order replaces an earlier one
unfoldable pub predecessors : Dict Text Text → List Order → Dict Text Text
predecessors d [] = d
predecessors d (o ∷ orders) = predecessors (put o.task_id o.predecessor d) orders

unfoldable pub predecessor_of : List Order → Text → Text
unfolding predecessors
predecessor_of orders t = or_else (get t (predecessors [] orders)) []

unfoldable pub task_ids : List Order → List Text
task_ids = map (λ o. o.task_id)

unfoldable pub served : List Dispatch → List Text
served = map (λ d. d.task_id)

-- The test of the comprehension `violating`.
unfoldable pub violates : List Order → List Dispatch → Dispatch → Bool
violates orders dispatch d =
    let p = predecessor_of orders d.task_id in
    not (is_empty p) && (contains p (task_ids orders) && not (contains p (served dispatch)))

-- `out_dispatch.remove(record)`
unfoldable pub remove_first : Dispatch → List Dispatch → List Dispatch
remove_first d [] = []
remove_first d (x ∷ xs) = if x == d then xs else x ∷ remove_first d xs

unfoldable pub remove_all : List Dispatch → List Dispatch → List Dispatch
unfolding remove_first
remove_all [] xs = xs
remove_all (d ∷ ds) xs = remove_all ds (remove_first d xs)

unfoldable pub not_served : List Order → Dispatch → Infeasible
not_served orders d = record {
  task_id = d.task_id;
  cluster_id = d.cluster_id;
  reason_code = predecessor_unserved;
  detail =
      codes "predecessor " ++ predecessor_of orders d.task_id ++ codes " not served in this plan";
}

abbrev pub add_extra :
    List Infeasible
    → Option (List Dispatch × List Infeasible)
    → Option (List Dispatch × List Infeasible)
add_extra new none = none
add_extra new (some (dispatch, extra)) = some (dispatch, new ++ extra)

-- The `while` loop, with the rounds that it may take.
unfoldable pub withdraw : ℕ → List Order → List Dispatch → Option (List Dispatch × List Infeasible)
unfolding remove_all
withdraw zero orders dispatch = none
withdraw (suc rounds) orders dispatch =
    let violating = keep (violates orders dispatch) dispatch in
    let rest =
      add_extra (map (not_served orders) violating)
        (withdraw rounds orders (remove_all violating dispatch)) in
    if is_empty violating then some (dispatch, []) else rest

abbrev pub behind :
    List Infeasible
    → Option (List Dispatch × List Infeasible)
    → Option (List Dispatch × List Infeasible)
behind infeasible none = none
behind infeasible (some (left, extra)) = some (left, infeasible ++ extra)

-- The records that are left, and `infeasible` with those that are withdrawn behind it.
unfoldable pub enforce_dependency_outcomes :
    List Dispatch → List Infeasible → List Order → Option (List Dispatch × List Infeasible)
unfolding withdraw
enforce_dependency_outcomes dispatch infeasible orders =
    behind infeasible (withdraw (suc (length dispatch)) orders dispatch)
