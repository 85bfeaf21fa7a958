-- ===== src/Serving.antt =====
-- The serving layer's request guard: src/fl_op/serving/security.
pub mod Errors
pub mod RateLimit
pub mod Principal
pub mod Authenticators
pub mod Audit
pub mod Gateway
mod Tests
