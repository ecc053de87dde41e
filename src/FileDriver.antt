-- ===== src/FileDriver.antt =====
-- crates/tsoracle-driver-file/src/driver.rs: the backend of one process, over three files. A file is
-- what it decodes to; how a write of it ends is a parameter.
pub mod Handed
pub mod Dense
pub mod Batch
pub mod Agreement
mod Tests
use tsoracle.Prelude.{
  ℕ, ◌+◌, true, false, leb, ltb, not, ◌&&◌, if◌then◌else◌, Bool, Option, none, some, List, Result,
  ok, err, ◌>>=◌, ◌>>◌, fail_if, ok_or, checked_add_u64,
}
use tsoracle.BTreeMap.{BTreeMap, bytes_ord, get, insert, contains_key, len}
use tsoracle.Epoch.{Epoch}
use tsoracle.Seq.{SeqKey}
use tsoracle.Lease.{LeaseRecord}
use tsoracle.Consensus.{
  ConsensusError, seq_key_cardinality_exceeded, seq_overflow, permanent_driver, external,
  reject_out_of_range_advance,
}

abbrev pub default_dense_cardinality_cap : ℕ
default_dense_cardinality_cap = 10000

abbrev pub Counters : Type 0
Counters = BTreeMap (List ℕ) ℕ

pub record DenseState : Type 0 where
  pub map : Counters
  pub cap : ℕ

-- The driver's memory, and what the files hold.
pub record FileDriver : Type 0 where
  pub state : ℕ
  pub dense : DenseState
  pub leases : List LeaseRecord
  pub state_file : ℕ
  pub dense_file : DenseState
  pub leases_file : List LeaseRecord

-- A write goes through, or fails with the old file in place, or fails after the new file took its
-- place (the rename is done, the directory is not synced).
pub data WriteOutcome : Type 0 where
  written failed_before_rename failed_after_rename : WriteOutcome

abbrev pub io_error : ConsensusError
io_error = permanent_driver (external 0)

-- The file a write leaves, from the old one and the new one.
abbrev pub file_after : {A : Type 0} → WriteOutcome → A → A → A
file_after written old new = new
file_after failed_before_rename old new = old
file_after failed_after_rename old new = new

abbrev pub is_written : WriteOutcome → Bool
is_written written = true
is_written _ = false

-- `open_or_init` on the files that are there
unfoldable pub reopen : FileDriver → FileDriver
reopen d = record d { state = d.state_file; dense = d.dense_file; leases = d.leases_file }

unfoldable pub load_high_water : FileDriver → ℕ
load_high_water d = d.state

unfoldable pub persist_high_water :
    WriteOutcome → ℕ → FileDriver → Result ConsensusError ℕ × FileDriver
unfolding reject_out_of_range_advance
persist_high_water w at_least d = elim (reject_out_of_range_advance at_least) [
  | err e ↦ (err e, d)
  | ok u ↦
      if leb at_least d.state
      then (ok d.state, d)
      else if is_written w
      then (ok at_least, record d { state = at_least; state_file = at_least })
      else (err io_error, record d { state_file = file_after w d.state_file at_least })
]

-- A missing counter stands at 0.
abbrev pub or_zero : Option ℕ → ℕ
or_zero none = 0
or_zero (some n) = n

unfoldable pub load_dense_seq : SeqKey → FileDriver → ℕ
load_dense_seq key d = or_zero (get key.bytes d.dense.map)

-- The counter's value and the one after the block, or why there is none.
unfoldable pub next_block : SeqKey → ℕ → DenseState → Result ConsensusError (ℕ × ℕ)
next_block key count s = do
  fail_if (not (contains_key key.bytes s.map) && leb s.cap (len s.map))
      (seq_key_cardinality_exceeded s.cap)
  next ← ok_or (checked_add_u64 (or_zero (get key.bytes s.map)) count) seq_overflow
  ok (or_zero (get key.bytes s.map), next)

-- The new map is written before it is kept.
unfoldable pub store_dense :
    {A : Type 0} → WriteOutcome → Counters → A → FileDriver → Result ConsensusError A × FileDriver
store_dense w m a d =
    let new : DenseState = record { map = m; cap = d.dense.cap } in
    if is_written w
    then (ok a, record d { dense = new; dense_file = new })
    else (err io_error, record d { dense_file = file_after w d.dense_file new })

abbrev pub store_block :
    WriteOutcome
    → SeqKey
    → Result ConsensusError (ℕ × ℕ)
    → FileDriver
    → Result ConsensusError ℕ × FileDriver
unfolding store_dense
store_block w key (err e) d = (err e, d)
store_block w key (ok (start, next)) d = store_dense w (insert key.bytes next d.dense.map) start d

unfoldable pub advance_dense :
    WriteOutcome → SeqKey → ℕ → FileDriver → Result ConsensusError ℕ × FileDriver
unfolding next_block
advance_dense w key count d = store_block w key (next_block key count d.dense) d

unfoldable pub load_leases : FileDriver → List LeaseRecord
load_leases d = d.leases

unfoldable pub persist_leases :
    WriteOutcome → List LeaseRecord → FileDriver → Result ConsensusError (Unit {0}) × FileDriver
persist_leases w live d =
    if is_written w
    then (ok tt, record d { leases = live; leases_file = live })
    else (err io_error, record d { leases_file = file_after w d.leases_file live })
