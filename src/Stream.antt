-- ===== src/Stream.antt =====
-- The event stream: src/fl_op/stream.
pub mod Dedup
pub mod Apply
pub mod Source
pub mod Broker
pub mod Driver
pub mod Runs
