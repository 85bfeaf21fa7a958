-- ===== src/Stream/Apply.antt =====
-- Applying execution events to the source rows: src/fl_op/stream/apply.py and the payloads of
-- src/fl_op/stream/coverage.py.
pub mod Rows
pub mod Coverage
pub mod Tasks
pub mod Passes
pub mod Upserts
pub mod Telemetry
pub mod Dispatch
pub mod Loops
pub mod Removal
pub mod Replay
pub mod Horizon
pub mod Finished
pub mod Convergence
pub mod Tests
