-- ===== src/Engine.antt =====
-- The engine: crates/patchwright-engine.
pub mod Jobs
pub mod JobStore
pub mod Monitoring
pub mod TaskStore
pub mod Delivery
