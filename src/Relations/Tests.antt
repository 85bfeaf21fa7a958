-- ===== src/Relations/Tests.antt =====
-- Windows and precedence on concrete orders: src/fl_op/solver/task_relations.py.
use fl_op.Base.Dict.{get, put}
use fl_op.Relations.Outcomes.{violates, predecessor_of, task_ids, served, dispatch_beq}
use fl_op.Relations.Windows.{parse_deadline}
use fl_op.Relations.Windows.{usable}
use fl_op.Relations.Windows.{split_interval}
use fl_op.Base.{
  contains, Option, ℕ, ◌≡◌, refl, ◌↔◌, none, some, List, [], ◌∷◌, Text, codes, arith, inl, inr,
}
use fl_op.Base.Members.{In}
use fl_op.Relations.Order.{Order, items, window_infeasible, excluded_before_solve}
use fl_op.Relations.Windows.{
  parse_time_windows, Parsers, parse_window, parse_windows, apply_time_window_filter,
}
use fl_op.Relations.Windows.Laws.{IsWorkable, apply_time_window_filter_splits, passes_earlier}
use fl_op.Relations.Cascade.{apply_dependency_filter}
use fl_op.Relations.Cascade.Closure.{IsClosure, apply_dependency_filter-IsClosure}
use fl_op.Relations.Outcomes.{Dispatch, enforce_dependency_outcomes, not_served}
use fl_op.Relations.Outcomes.Greatest.{IsGreatest, enforce_dependency_outcomes-IsGreatest}

-- One digit is an instant.
abbrev one_digit : Text → Option ℕ
one_digit (c ∷ []) = some c
one_digit _ = none

abbrev digits : Parsers
digits = record { from_iso_format = one_digit; literal_list = λ _. none }

abbrev order : Text → Text → List Text → Order
order id predecessor windows = record {
  task_id = id;
  predecessor = predecessor;
  time_windows = items windows;
  deadline = codes "7";
}

abbrev a : Order
a = order (codes "a") [] (codes "1/3" ∷ codes "bad" ∷ [])

abbrev b : Order
b = order (codes "b") (codes "a") (codes "5/" ∷ [])

abbrev c : Order
c = order (codes "c") (codes "b") []

-- At the instant "4".
apply_time_window_filter_splits_example :
    (In b (apply_time_window_filter digits 52 (a ∷ b ∷ c ∷ [])).0 ↔ IsWorkable digits 52 b)
    × ((¬ IsWorkable digits 52 b)
        → In (window_infeasible b.task_id) (apply_time_window_filter digits 52 (a ∷ b ∷ c ∷ [])).1)
apply_time_window_filter_splits_example =
    apply_time_window_filter_splits digits 52 (a ∷ b ∷ c ∷ []) b (inr (inl refl))

filter_at_four :
    apply_time_window_filter digits 52 (a ∷ b ∷ c ∷ [])
    ≡ (b ∷ c ∷ [], window_infeasible (codes "a") ∷ [])
unfolding apply_time_window_filter parse_windows parse_window split_interval usable parse_deadline
filter_at_four = refl

passes_earlier_example : IsWorkable digits 49 b
unfolding parse_time_windows parse_windows parse_window split_interval
passes_earlier_example =
    passes_earlier digits 49 52 b (omega arith)
      (inr ((53, none), inl refl, tt, unfold parse_deadline in omega arith))

apply_dependency_filter-IsClosure_example :
    IsClosure (c ∷ b ∷ []) (codes "a" ∷ []) (apply_dependency_filter (c ∷ b ∷ []) (codes "a" ∷ []))
apply_dependency_filter-IsClosure_example =
    apply_dependency_filter-IsClosure (c ∷ b ∷ []) (codes "a" ∷ [])

-- `c` is cut in the second round.
cascade_two_rounds :
    apply_dependency_filter (c ∷ b ∷ []) (codes "a" ∷ [])
    ≡ some ([], excluded_before_solve b ∷ excluded_before_solve c ∷ [])
unfolding apply_dependency_filter contains
cascade_two_rounds = refl

abbrev dispatch_of : Order → Dispatch
dispatch_of o = record { task_id = o.task_id; cluster_id = codes "k"; details = [] }

enforce_dependency_outcomes-IsGreatest_example :
    IsGreatest
      (dispatch_of b ∷ dispatch_of c ∷ [])
      []
      (a ∷ b ∷ c ∷ [])
      (enforce_dependency_outcomes (dispatch_of b ∷ dispatch_of c ∷ []) [] (a ∷ b ∷ c ∷ []))
enforce_dependency_outcomes-IsGreatest_example =
    enforce_dependency_outcomes-IsGreatest (dispatch_of b ∷ dispatch_of c ∷ []) [] (a ∷ b ∷ c ∷ [])

-- `a` is not served, so `b` goes, and then `c`.
both_withdrawn :
    enforce_dependency_outcomes (dispatch_of b ∷ dispatch_of c ∷ []) [] (a ∷ b ∷ c ∷ [])
    ≡ some (
      [],
      not_served (a ∷ b ∷ c ∷ []) (dispatch_of b)
          ∷ not_served (a ∷ b ∷ c ∷ []) (dispatch_of c)
          ∷ [],
    )
unfolding enforce_dependency_outcomes violates predecessor_of get put contains task_ids served
    not_served dispatch_beq
both_withdrawn = refl
