-- ===== src/Relations.antt =====
-- Workable time windows and precedence between tasks: src/fl_op/solver/task_relations.py.
pub mod Order
pub mod Windows
pub mod Cascade
pub mod Outcomes
mod Tests
