-- ===== src/Openraft.antt =====
-- crates/tsoracle-driver-openraft/src: the replicated state machine (state_machine.rs), its commands
-- (log_entry.rs) and outcomes (type_config.rs). What openraft brings is a parameter: log ids with
-- their order, and how a membership is stored.
pub mod Entries
pub mod Counters
pub mod NewKeys
pub mod Scratch
pub mod Batch
pub mod Apply
pub mod Codec
pub mod Snapshot
pub mod Machine
pub mod RoundTrip
pub mod Cases
pub mod Invariant
pub mod Replay
pub mod Install
pub mod Suffix
pub mod Events
pub mod Commits
pub mod Published
pub mod LeaseSets
pub mod Durable
pub mod Restart
pub mod Driver
pub mod HighWater
pub mod Proposals
pub mod LeaseProposals
mod DriverTests
mod Tests
