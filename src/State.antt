-- ===== src/State.antt =====
-- src/state.rs: the bounded presentation cache of the frontend.
pub mod Cache
pub mod Retire
pub mod Timeline
pub mod Ops
pub mod Drain
pub mod Valid
pub mod TimelineInvariant
pub mod RetireInvariant
pub mod Eviction
pub mod ChannelInvariant
pub mod Invariant
pub mod Reads
pub mod Messages
pub mod Echo
pub mod Merge
pub mod Sorted
pub mod Room
pub mod Deletes
pub mod Restores
pub mod Updates
pub mod Sends
pub mod Recency
pub mod Loses
pub mod RetireEffects
pub mod DrainEffects
pub mod DrainOrder
mod Tests
