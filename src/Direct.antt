-- ===== src/Direct.antt =====
-- src/gateway/direct.rs: the bounded cache of direct-message channels, and the payloads of the
-- gateway that become its events.
pub mod Cache
pub mod Payloads
pub mod Invariant
pub mod Lookups
pub mod Drains
pub mod View
pub mod Refinement
mod Tests
