-- ===== src/Openraft/Entries.antt =====
-- Log entries (log_entry.rs), what applying one answers (type_config.rs), and the versions of the
-- format (crates/tsoracle-openraft-toolkit/src/codec.rs).
use tsoracle.Prelude.{ℕ, List}
use tsoracle.Seq.{SeqKey}
use tsoracle.Lease.{LeaseRecord}
use tsoracle.Consensus.{AdvancePayload}

abbrev pub min_readable_version : ℕ
min_readable_version = 4

abbrev pub max_readable_version : ℕ
max_readable_version = 7

abbrev pub baseline_write_version : ℕ
baseline_write_version = 4

abbrev pub dense_write_version : ℕ
dense_write_version = 5

abbrev pub batch_write_version : ℕ
batch_write_version = 6

abbrev pub lease_write_version : ℕ
lease_write_version = 7

-- A durable lease has the fields of a lease record, and a set of them is ordered by lease id.
abbrev pub LeaseSet : Type 0
LeaseSet = List LeaseRecord

pub record DenseAdvance : Type 0 where
  pub key : SeqKey
  pub count : ℕ

pub data HighWaterCommand : Type 0 where
  advance : (payload : AdvancePayload) → HighWaterCommand
  set_format_version : (target : ℕ) (gated_members : List ℕ) → HighWaterCommand
  advance_dense : (entry : DenseAdvance) → HighWaterCommand
  advance_dense_batch : (entries : List DenseAdvance) → HighWaterCommand
  set_leases : (expected_term : ℕ) (leases : LeaseSet) → HighWaterCommand

pub data ApplyOutcome : Type 0 where
  advanced : ApplyOutcome
  format_activated format_activation_noop format_activation_target_out_of_range :
      (target : ℕ) → ApplyOutcome
  dense_advanced : (start : ℕ) → ApplyOutcome
  dense_cardinality_exceeded : (cap : ℕ) → ApplyOutcome
  dense_overflow : ApplyOutcome
  dense_batch_advanced : (starts : List ℕ) → ApplyOutcome
  dense_batch_cardinality_exceeded : (cap : ℕ) → ApplyOutcome
  dense_batch_overflow : ApplyOutcome
  leases_replaced : ApplyOutcome
  leases_fenced : (expected_term entry_term : ℕ) → ApplyOutcome

pub record HighWaterApplied : Type 0 where
  pub value : ℕ
  pub outcome : ApplyOutcome

-- `EntryPayload`, over the memberships `M` of openraft
pub data EntryPayload (M : Type 0) : Type 0 where
  blank : EntryPayload M
  normal : HighWaterCommand → EntryPayload M
  membership : M → EntryPayload M

-- An entry, over the log ids `L`
pub record Entry (L M : Type 0) : Type 0 where
  pub log_id : L
  pub payload : EntryPayload M

-- What openraft answers about a log id, and about a membership as it is stored.
pub record Raft (L M S : Type 0) : Type 0 where
  pub term : L → ℕ
  pub new_stored : L → M → S
  pub no_membership : S
  pub node_ids : S → List ℕ
