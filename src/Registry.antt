-- ===== src/Registry.antt =====
-- bridge/src/source_registry.ts: the sources of the hub, each with its descriptor, its snapshot, its
-- replay ring and its lease. `State` has the data, `Metadata`, `Streams`, `Syncs` and `Leasing` the
-- methods of `SourceRegistry`; the other children prove.
pub mod State
pub mod Metadata
pub mod Streams
pub mod Syncs
pub mod Leasing
pub mod Invariant
pub mod History
pub mod Changes
pub mod Steps
pub mod Delivery
pub mod Continuity
mod Tests
