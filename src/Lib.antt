-- ===== src/Lib.antt =====
-- tsoracle, a distributed timestamp and sequence oracle: the core state machines, the consensus
-- interface, the server's request and leadership paths, the replicated state machines of the
-- backends with the files and the log they keep, and the client's side of a request.
--
-- The parts, and how they interact. A server keeps one serving core: the window allocator, the
-- sequence gate, the lease table and the published serving state. Requests read and write it; a
-- window that runs out is extended by persisting a higher bound through the consensus backend and
-- committing what it answers. A gained leadership fences the core, raises the backend's high-water
-- past everything that was issued before, seeds the core and serves. A backend is the file driver,
-- or a log that a consensus library replicates and a state machine applies.
--
-- - Prelude: names of the libraries, Boolean tests on words, lists, results, overflow of words.
-- - Bits: shifts, `|` and `&` of packed words as arithmetic.
-- - Timestamp: crates/tsoracle-core/src/timestamp.rs (`pack`, `try_pack`, the two fields).
-- - Epoch: crates/tsoracle-core/src/epoch.rs and the ballot encoding of
--   crates/tsoracle-driver-paxos/src/type_config.rs.
-- - CoreError, Allocator: crates/tsoracle-core/src/allocator.rs. `State` is the type `Allocator`;
--   each `&mut self` method returns the new state beside its answer.
-- - Seq: crates/tsoracle-core/src/seq.rs. A string is its UTF-8 bytes.
-- - BTreeMap: the ordered map of the standard library, as an association list with ascending keys.
-- - Lease: crates/tsoracle-core/src/lease.rs.
-- - Peer, Consensus: crates/tsoracle-core/src/peer.rs (the address alone) and
--   crates/tsoracle-consensus/src; the driver trait is a record of calls over a state.
-- - Server: crates/tsoracle-server/src. Server/Core is serving_core.rs; Server/Status the statuses
--   of service.rs, leader_hint.rs and lease_flow.rs and persist_disposition.rs; Server/Action the
--   shape of a handler; Server/Window and Server/Sequences service.rs; Server/Leases lease_flow.rs;
--   Server/Fence fence.rs. The other modules below Server, and those below the other parts, hold
--   the proofs; the modules named Tests run theorems at concrete values.
-- - FileDriver: crates/tsoracle-driver-file/src/driver.rs. A file is the value that it decodes to,
--   and a write goes through, fails before the rename or fails after it. FileDriver/Batch is the
--   batch advance; FileDriver/Handed and FileDriver/Dense hold the proofs on sequences, FileDriver/Agreement those
--   on a batch against the replicated state machine.
-- - Cluster: several servers over one high-water. Each runs the fence of fence.rs, and the window
--   extension and the grants of service.rs, in small steps that interleave with elections and with
--   answers that are lost. Which persists the backend accepts is a parameter, since a driver chooses
--   by crates/tsoracle-consensus/src/driver.rs how it fences; the theorems are about runs in which it
--   accepts none of an epoch other than the current one (`Fenced`). A driver that compares the epoch,
--   as the paxos driver does, is meant to have only such runs; the openraft driver ignores it, and
--   has them as long as no node that is elected again persists with its earlier epoch.
--   Cluster/Invariant is the invariant of a run, Cluster/Nodes, Cluster/Log, Cluster/Persists,
--   Cluster/Grants and Cluster/Steps keep it,
--   Cluster/Safety reads it.
-- - Openraft: crates/tsoracle-driver-openraft/src. Openraft/Entries is log_entry.rs, type_config.rs
--   and the format versions of crates/tsoracle-openraft-toolkit/src/codec.rs; Openraft/Counters and
--   Openraft/Apply are `apply` of state_machine.rs; Openraft/Codec its snapshot formats over
--   crates/tsoracle-codec/src; Openraft/Snapshot and Openraft/Machine how snapshots are built,
--   committed, installed and loaded; Openraft/Events a life of such calls; Openraft/Driver is
--   driver.rs over the host in standalone.rs. The other modules below it hold the proofs.
-- - Paxos: crates/tsoracle-driver-paxos/src, of it log_entry.rs, state_machine.rs,
--   snapshot_policy.rs and the steps of apply.rs.
-- - Records: the bytes of the file driver's files. Records/HighWater, Records/Framed, Records/Dense
--   and Records/Leases are record.rs, framed_record.rs, dense_record.rs and lease_record.rs of
--   crates/tsoracle-driver-file/src, Records/Validation validation.rs, and Records/Files opens and
--   seeds a directory as `open_or_init` and `init_seeded` of driver.rs do. Records/Files/Durable
--   puts the calls of FileDriver on top of the bytes. crc32c is a parameter.
-- - LogStore: crates/tsoracle-openraft-toolkit/src/log_store, the log, the vote and the ids that one
--   group or several keep in RocksDB. LogStore/Database is the parameter that stands for RocksDB,
--   where a write that fails may leave its batch in place;
--   LogStore/Keys is key_space.rs, and the other modules below it hold the proofs.
-- - Client: crates/tsoracle-client/src, of it response.rs, worklist.rs and the loop of one pass in
--   retry.rs; the outcomes of the attempts are a parameter. Client/Sequence is the whole loop of a
--   sequence request in retry.rs, over Client/Sequence/Status (seq_attempt.rs, leader_hint.rs,
--   retry_policy.rs); what comes of
--   dialling, the time left and the endpoints of a pass are a list of turns. Client/Leaders is the
--   cached leader and the rotation of channel_pool.rs.
--
-- Third-party parts. Log ids with their order, the storing of memberships, and what becomes of a
-- proposal are parameters that stand for openraft; postcard is an encoder and a decoder that undoes
-- it; the answers of omnipaxos are a record of what it reads. A frame of bytes is its version byte
-- and its body. A write of the snapshot store may fail with the old or the new bytes in place.
--
-- Numbers. `u32`, `u64` and `u128` are natural numbers; a sum or a shift that may leave its word is
-- written with the remainder, the checked and saturating sums by name. A panic is `none`.
--
-- Waits. An awaited call of the backend, and the wait for the extension lock or the gate, takes the
-- server's state from before to after: the backend and the other tasks are a parameter (`Runtime`),
-- and each theorem says what it asks of them. A lock that is held has no state of its own.
--
-- Loops. The one retry of `get_ts` is written out. The attempts of a fence are a list, one entry for
-- each attempt that the backoff leaves time for; the list has no bound, and when it is used up the
-- next leadership event takes over, as in the source.
--
-- Not modelled: metrics, traces, the text of messages, transport and TLS, the process around the
-- server, the coalescing task, the channels and the budgets of the client, the export of the file
-- driver, the linearizable reads and the capability gate of the openraft driver, the tasks and
-- hosts around the paxos driver, and of the toolkits all but the log store: they wire third-party
-- crates, or wait on clocks and networks.
pub mod Prelude
pub mod Bits
pub mod Timestamp
pub mod Epoch
pub mod CoreError
pub mod Allocator
pub mod Seq
pub mod BTreeMap
pub mod Lease
pub mod Peer
pub mod Consensus
pub mod Server
pub mod FileDriver
pub mod Records
pub mod LogStore
pub mod Cluster
pub mod Openraft
pub mod Paxos
pub mod Client
