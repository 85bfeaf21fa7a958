-- ===== src/Solver.antt =====
-- The solver's preparation of clusters: src/fl_op/solver.
pub mod Allocation
pub mod Conflict
pub mod Intervals
pub mod Restrictions
pub mod Operators
pub mod Weather
pub mod Materials
