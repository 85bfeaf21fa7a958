-- ===== src/Solver/Restrictions.antt =====
-- Restricted locations: src/fl_op/solver/restrictions.py.
pub mod Starts
mod Tests
