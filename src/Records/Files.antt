-- ===== src/Records/Files.antt =====
-- `open_or_init` and `init_seeded` of driver.rs: a state directory as the bytes of its three files,
-- and the driver that is opened on it.
pub mod Reopen
pub mod Durable
use tsoracle.Prelude.{
  ℕ, Bool, true, false, ltb, if◌then◌else◌, Option, none, some, List, [], Result, ok, err, ◌>>=◌,
  ◌>>◌, fail_if, map_err,
}
use tsoracle.Timestamp.{physical_ms_max}
use tsoracle.Lease.{LeaseRecord}
use tsoracle.FileDriver.{DenseState, FileDriver, default_dense_cardinality_cap}
use tsoracle.Records.HighWater
use tsoracle.Records.HighWater.{RecordError}
use tsoracle.Records.Dense
use tsoracle.Records.Dense.{DenseRecordError}
use tsoracle.Records.Leases
use tsoracle.Records.Leases.{LeaseRecordError}
use tsoracle.Records.Validation.{StoredStateError, validate}

-- `none` is a file that is not there.
pub record Directory : Type 0 where
  pub state : Option (List ℕ)
  pub dense : Option (List ℕ)
  pub leases : Option (List ℕ)

pub data FileDriverError : Type 0 where
  state_exists : FileDriverError
  dense_decode : DenseRecordError → FileDriverError
  leases_decode : LeaseRecordError → FileDriverError
  decode : RecordError → FileDriverError
  physical_ms_out_of_range : ℕ → FileDriverError
  invalid_state : StoredStateError → FileDriverError
  already_locked : FileDriverError

abbrev pub empty_dense : DenseState
empty_dense = record { map = []; cap = default_dense_cardinality_cap }

module _ (crc32c : List ℕ → ℕ) where
  unfoldable pub read_state : Option (List ℕ) → Result FileDriverError ℕ
  unfolding HighWater.decode
  read_state none = ok 0
  read_state (some bytes) = do
    high_water ← map_err decode (HighWater.decode crc32c bytes)
    fail_if (ltb physical_ms_max high_water) (physical_ms_out_of_range high_water)
    ok high_water

  unfoldable pub read_dense : Option (List ℕ) → Result FileDriverError DenseState
  unfolding Dense.decode
  read_dense none = ok empty_dense
  read_dense (some bytes) = do
    (m, room) ← map_err dense_decode (Dense.decode crc32c bytes)
    ok (record { map = m; cap = room })

  unfoldable pub read_leases : Option (List ℕ) → Result FileDriverError (List LeaseRecord)
  unfolding Leases.decode
  read_leases none = ok []
  read_leases (some bytes) = map_err leases_decode (Leases.decode crc32c bytes)

  abbrev pub opened : ℕ → DenseState → List LeaseRecord → FileDriver
  opened current dense leases = record {
    state = current;
    dense = dense;
    leases = leases;
    state_file = current;
    dense_file = dense;
    leases_file = leases;
  }

  -- The check that only a build with `stopped-state-export` makes.
  abbrev pub export_check :
      Bool → ℕ → DenseState → List LeaseRecord → Result FileDriverError (Unit {0})
  export_check true current dense leases =
      map_err invalid_state (validate current dense.map dense.cap leases)
  export_check false current dense leases = ok tt

  unfoldable pub open_or_init :
      (stopped_state_export locked : Bool) → Directory → Result FileDriverError FileDriver
  unfolding read_state read_dense read_leases
  open_or_init stopped_state_export locked dir = do
    fail_if locked already_locked
    current ← read_state dir.state
    dense_state ← read_dense dir.dense
    leases ← read_leases dir.leases
    export_check stopped_state_export current dense_state leases
    ok (opened current dense_state leases)

  abbrev pub is_some : {A : Type 0} → Option A → Bool
  is_some none = false
  is_some (some a) = true

  -- `write_record` of the seed to a directory with no state file
  unfoldable pub init_seeded :
      (stopped_state_export locked : Bool) → ℕ → Directory → Result FileDriverError Directory
  unfolding HighWater.encode
  init_seeded stopped_state_export locked seed_physical_ms dir = do
    fail_if (ltb physical_ms_max seed_physical_ms) (physical_ms_out_of_range seed_physical_ms)
    fail_if (if stopped_state_export then locked else false) already_locked
    fail_if (is_some dir.state) state_exists
    ok (record dir { state = some (HighWater.encode crc32c seed_physical_ms) })
