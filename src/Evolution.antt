-- ===== src/Evolution.antt =====
-- The schema-evolution policy: src/fl_op/contracts/evolution.py.
pub mod Change
pub mod Version
mod Tests
