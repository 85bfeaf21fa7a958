-- ===== src/Stream/Driver.antt =====
-- The rolling driver: src/fl_op/stream/driver.py. Snapshots and plans are those of a `Planner`, and
-- the trail files are lists.
pub mod Tests
pub mod Batches
pub mod Converging
pub mod Once
pub mod Turn
pub mod Started
pub mod Published
pub mod Sessions
