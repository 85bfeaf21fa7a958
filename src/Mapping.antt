-- ===== src/Mapping.antt =====
-- Source fields on their way into the canonical model: src/fl_op/mapping.
pub mod Policies
mod Tests
