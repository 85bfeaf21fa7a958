-- ===== src/Relations/Cascade.antt =====
-- Orders whose predecessor was excluded: `apply_dependency_filter` of
-- src/fl_op/solver/task_relations.py.
pub mod Rounds
pub mod Closure
use fl_op.Base.{
  ℕ, zero, suc, Option, none, some, Bool, true, false, ◌&&◌, not, List, [], ◌∷◌, ◌++◌, length, Text,
  text_eq, contains, if◌then◌else◌,
}
use fl_op.Base.Strip.{is_empty}
use fl_op.Relations.Order.{Order, Infeasible, excluded_before_solve}

-- The test of the inner loop.
abbrev pub is_cut : List Text → Order → Bool
is_cut excluded o = not (is_empty o.predecessor) && contains o.predecessor excluded

-- What one round of the `while` loop leaves: the remaining orders, the records that it appends, and
-- the excluded ids, which grow while the round goes on.
pub record Round : Type 0 where
  pub remaining : List Order
  pub cut : List Infeasible
  pub excluded : List Text

abbrev keep_order : Order → Round → Round
keep_order o r = record r { remaining = o ∷ r.remaining }

abbrev cut_order : Order → Round → Round
cut_order o r = record r { cut = excluded_before_solve o ∷ r.cut }

unfoldable pub run_round : List Text → List Order → Round
run_round excluded [] = record { remaining = []; cut = []; excluded = excluded }
run_round excluded (o ∷ orders) =
    let kept = keep_order o (run_round excluded orders) in
    let dropped = cut_order o (run_round (excluded ++ o.task_id ∷ []) orders) in
    if is_cut excluded o then dropped else kept

abbrev pub add_cut :
    List Infeasible → Option (List Order × List Infeasible) → Option (List Order × List Infeasible)
add_cut cut none = none
add_cut cut (some (kept, infeasible)) = some (kept, cut ++ infeasible)

-- The `while` loop, with the rounds that it may take.
unfoldable pub cascade : ℕ → List Text → List Order → Option (List Order × List Infeasible)
unfolding run_round
cascade zero excluded orders = none
cascade (suc rounds) excluded orders =
    let r = run_round excluded orders in
    let rest = add_cut r.cut (cascade rounds r.excluded r.remaining) in
    if is_empty r.cut then some (r.remaining, []) else rest

-- One round more than there are orders.
unfoldable pub apply_dependency_filter :
    List Order → List Text → Option (List Order × List Infeasible)
unfolding cascade
apply_dependency_filter orders excluded = cascade (suc (length orders)) excluded orders
