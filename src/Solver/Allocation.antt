-- ===== src/Solver/Allocation.antt =====
-- Reserving implements, vehicles and operators for clusters: src/fl_op/solver/allocation.
pub mod Model
pub mod Candidates
pub mod Greedy
pub mod Free
pub mod Exclusive
pub mod Claims
pub mod Crews
mod Tests
