-- ===== src/Contract.antt =====
-- crates/patchwright-core/src/contract.rs: task sources, repository bindings and task contracts.
pub mod Fields
pub mod Source
pub mod Bindings
pub mod Parts
pub mod Tasks
pub mod Legacy
pub mod RoundTrips
pub mod Consistency
pub mod Tests
