-- ===== src/Server/Status.antt =====
-- What a handler answers when it does not succeed: `tonic::Status` as its code, what its message
-- names, and the leader hint of a rejection (service.rs, leader_hint.rs, lease_flow.rs), and the
-- classification of backend errors (persist_disposition.rs).
use tsoracle.Prelude.{ℕ, Option, none, some, List}
use tsoracle.Epoch.{Epoch, to_wire}
use tsoracle.CoreError.{
  CoreError, window_exhausted, invalid_count, physical_ms_out_of_range, logical_range_out_of_range,
  invalid_leadership_window, window_extension_overflow, seq_key_empty, seq_key_too_long,
  seq_count_zero, seq_count_too_large, seq_block_overflow,
}
use tsoracle.Lease.{
  LeaseError, holder_len_out_of_range, ttl_out_of_range, holder_epoch_stale, lease_expired,
  lease_superseded, unknown_lease,
}
use tsoracle.Peer.{PeerEndpoint}
use tsoracle.Consensus.{
  ConsensusError, fenced, transient_driver, permanent_driver, advance_out_of_range, Source, wrapped,
}

pub data Code : Type 0 where
  invalid_argument not_found failed_precondition out_of_range : Code
  unimplemented internal unavailable resource_exhausted : Code

-- Which persist a message is about: "persist" or "persist leases".
pub data Context : Type 0 where
  of_window of_leases : Context

-- A message, by what it says and which values it prints.
pub data Message : Type 0 where
  not_the_leader zero_count empty_batch invalid_sequence_key count_out_of_bounds : Message
  counter_overflow no_dense_sequences no_leases : Message
  of_core : (error : CoreError) → Message
  of_lease : (error : LeaseError) → Message
  persist_failed : (context : Context) (source : Source) → Message
  persist_out_of_range : (context : Context) (at_least : ℕ) → Message
  batch_too_large : (len max : ℕ) → Message
  duplicate_key : (key : List ℕ) → Message
  cardinality_cap_reached : (cap : ℕ) → Message
  not_yet_activated : (active required : ℕ) → Message
  of_source : (source : Source) → Message
  of_consensus : (error : ConsensusError) → Message
  wrong_number_of_starts : (starts entries : ℕ) → Message

-- The epoch goes out as its two halves.
pub record LeaderHint : Type 0 where
  pub leader_endpoint : Option PeerEndpoint
  pub leader_epoch : Option (ℕ × ℕ)

pub record Status : Type 0 where
  pub code : Code
  pub message : Message
  pub hint : Option LeaderHint

abbrev pub status : Code → Message → Status
status c m = record { code = c; message = m; hint = none }

-- `wire_epoch`
unfoldable pub wire_epoch : Option Epoch → Option (ℕ × ℕ)
wire_epoch none = none
wire_epoch (some e) = some (to_wire e)

unfoldable pub not_leader_status : LeaderHint → Status
not_leader_status h = record { code = failed_precondition; message = not_the_leader; hint = some h }

unfoldable pub core_code : CoreError → Code
core_code CoreError.not_leader = failed_precondition
core_code window_exhausted = internal
core_code (invalid_count c) = invalid_argument
core_code (physical_ms_out_of_range p) = out_of_range
core_code (logical_range_out_of_range s c) = out_of_range
core_code (invalid_leadership_window f c) = internal
core_code (window_extension_overflow f n a) = internal
core_code seq_key_empty = invalid_argument
core_code (seq_key_too_long l m) = invalid_argument
core_code seq_count_zero = invalid_argument
core_code (seq_count_too_large c m) = invalid_argument
core_code (seq_block_overflow s c) = internal

unfoldable pub core_status : CoreError → Status
unfolding core_code
core_status e = status (core_code e) (of_core e)

unfoldable pub lease_code : LeaseError → Code
lease_code (holder_len_out_of_range l) = invalid_argument
lease_code (ttl_out_of_range t f c) = invalid_argument
lease_code (holder_epoch_stale e c) = failed_precondition
lease_code (lease_expired i e) = failed_precondition
lease_code (lease_superseded i b) = failed_precondition
lease_code (unknown_lease i) = not_found

unfoldable pub lease_status : LeaseError → Status
unfolding lease_code
lease_status e = status (lease_code e) (of_lease e)

pub data PersistDisposition : Type 0 where
  stepped_down : (fenced_by : Option Epoch) → PersistDisposition
  transient : (source : Source) → PersistDisposition
  permanent : (source : Source) → PersistDisposition
  beyond_range : (at_least : ℕ) → PersistDisposition

unfoldable pub classify : ConsensusError → PersistDisposition
classify (fenced expected current) = stepped_down (some current)
classify (ConsensusError.not_leader observed) = stepped_down none
classify (transient_driver source) = transient source
classify (permanent_driver source) = permanent source
classify (advance_out_of_range at_least) = beyond_range at_least
classify e = permanent (wrapped e)
