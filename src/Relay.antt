-- ===== src/Relay.antt =====
-- crates/patchwright-relay: the service that receives GitHub's webhooks.
pub mod Inbox
pub mod Forwarder
