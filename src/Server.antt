-- ===== src/Server.antt =====
-- crates/tsoracle-server/src: the serving core (serving_core.rs), the request handlers (service.rs,
-- lease_flow.rs) and the leader watch with its fence (fence.rs). Handlers are actions over the
-- server's state; the consensus backend and what other tasks do while a handler waits are
-- parameters. Counters, traces and the text of messages are left out.
mod Tests
pub mod Status
pub mod Core
pub mod Action
pub mod Window
pub mod Leases
pub mod Sequences
pub mod Fence
pub mod Invariant
pub mod Keeps
pub mod Handlers
pub mod LeaseHandlers
pub mod Watch
pub mod Failover
pub mod Tasks
pub mod Durable
