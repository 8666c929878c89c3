-- ===== src/Topology.antt =====
-- src/topology.rs: the bounded cache of guilds, channels and active threads.
pub mod Cache
pub mod Guilds
pub mod Ops
pub mod Upsert
pub mod Valid
pub mod Invariant
pub mod ThreadsFit
pub mod Handlers
pub mod Frame
pub mod Reads
pub mod Effects
pub mod Sync
pub mod Eviction
pub mod Removals
mod Tests
