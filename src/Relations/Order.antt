-- ===== src/Relations/Order.antt =====
-- The parts of an order and of an exclusion record that the relations read and write.
use fl_op.Base.{List, Text, codes, ◌++◌}

-- A row's workable windows: absent, one text (a CSV source), or a list, each item as `str` shows it.
pub data RawWindows : Type 0 where
  absent : RawWindows
  text : Text → RawWindows
  items : List Text → RawWindows

pub record Order : Type 0 where
  pub task_id : Text
  -- `str(order.depends_on_task_ref or "")`
  pub predecessor : Text
  pub time_windows : RawWindows
  -- `str(order.deadline)`, empty where there is none
  pub deadline : Text

pub data ReasonCode : Type 0 where
  contract_window_infeasible predecessor_unserved : ReasonCode

pub record Infeasible : Type 0 where
  pub task_id : Text
  pub cluster_id : Text
  pub reason_code : ReasonCode
  pub detail : Text

abbrev pub window_infeasible : Text → Infeasible
window_infeasible task_id = record {
  task_id = task_id;
  cluster_id = codes "";
  reason_code = contract_window_infeasible;
  detail = codes "no workable time window overlaps [now, deadline]";
}

abbrev pub excluded_before_solve : Order → Infeasible
excluded_before_solve o = record {
  task_id = o.task_id;
  cluster_id = codes "";
  reason_code = predecessor_unserved;
  detail = codes "predecessor " ++ o.predecessor ++ codes " excluded before solve";
}
