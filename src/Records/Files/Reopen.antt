-- ===== src/Records/Files/Reopen.antt =====
-- What a restart finds in the directory is what the driver's files stand for.
use tsoracle.Prelude.{
  ℕ, ◌^◌, ◌<◌, ◌≤◌, ◌≡◌, ◌⊎◌, inl, inr, Bool, false, refl, none, some, List, [], ◌∷◌, length, ok,
  err, All, arith,
}
use tsoracle.Timestamp.{physical_ms_max}
use tsoracle.Lease.{LeaseRecord}
use tsoracle.FileDriver.{FileDriver, reopen}
use tsoracle.Records.HighWater
use tsoracle.Records.HighWater.RoundTrip as HighWaterTrip
use tsoracle.Records.Dense
use tsoracle.Records.Dense.RoundTrip as DenseTrip
use tsoracle.Records.Dense.RoundTrip.{IsWritable}
use tsoracle.Records.Leases
use tsoracle.Records.Leases.RoundTrip as LeasesTrip
use tsoracle.Records.Leases.RoundTrip.{Ascends, AboveId, OtherId, Distinct, Fits, sort-sorted}
use tsoracle.Records.Files.{
  Directory, state_exists, empty_dense, read_state, read_dense, read_leases, opened, export_check,
  open_or_init, init_seeded,
}

-- The contents of the files fit their formats.
pub record IsDurable (d : FileDriver) : Type 0 where
  pub in_range : d.state_file ≤ physical_ms_max
  pub counters : IsWritable d.dense_file.map d.dense_file.cap
  pub by_id : Ascends d.leases_file
  pub leases_fit : All Fits d.leases_file
  pub few_leases : length d.leases_file < 2 ^ 32

above_others :
    (n : ℕ) (r : LeaseRecord) (rs : List LeaseRecord)
    → r.lease_id ≤ n
    → AboveId n rs
    → All (OtherId r) rs
above_others n r [] h a = tt
above_others n r (x ∷ rs) h (k, a) =
    (λ e. absurd (omega arith), above_others x.lease_id r rs (omega arith) a)

AboveId-Distinct : (n : ℕ) (rs : List LeaseRecord) → AboveId n rs → Distinct rs
AboveId-Distinct n [] a = tt
AboveId-Distinct n (r ∷ rs) (h, a) =
    (above_others r.lease_id r rs (omega arith) a, AboveId-Distinct r.lease_id rs a)

Ascends-Distinct : (rs : List LeaseRecord) → Ascends rs → Distinct rs
Ascends-Distinct [] a = tt
Ascends-Distinct (r ∷ rs) a =
    (above_others r.lease_id r rs (omega arith) a, AboveId-Distinct r.lease_id rs a)

module _ (crc32c : List ℕ → ℕ) where
  -- A file holds what it stands for, or it is not there and stands for the value of a fresh one.
  pub record Holds (dir : Directory) (d : FileDriver) : Type 0 where
    pub state :
        (dir.state ≡ some (HighWater.encode crc32c d.state_file))
        ⊎ ((dir.state ≡ none) × (d.state_file ≡ 0))
    pub dense :
        (dir.dense ≡ some (Dense.encode crc32c d.dense_file.map d.dense_file.cap))
        ⊎ ((dir.dense ≡ none) × (d.dense_file ≡ empty_dense))
    pub leases :
        (dir.leases ≡ some (Leases.encode crc32c d.leases_file))
        ⊎ ((dir.leases ≡ none) × (d.leases_file ≡ []))

module _ (crc32c : List ℕ → ℕ) (crc_word : (bs : List ℕ) → crc32c bs < 2 ^ 32) where
  state_lem :
      (dir : Directory) (d : FileDriver)
      → IsDurable d
      → Holds crc32c dir d
      → read_state crc32c dir.state ≡ ok d.state_file
  unfolding read_state
  state_lem dir d w h = elim h.state [
    | inl e ↦ ground (arith, w.in_range, HighWaterTrip.decode-encode crc32c crc_word d.state_file)
    | inr (e, z) ↦ ground arith
  ]

  dense_lem :
      (dir : Directory) (d : FileDriver)
      → IsDurable d
      → Holds crc32c dir d
      → read_dense crc32c dir.dense ≡ ok d.dense_file
  unfolding read_dense
  dense_lem dir d w h = elim h.dense [
    | inl e ↦ ground (
      arith,
      DenseTrip.decode-encode_dense crc32c crc_word d.dense_file.map d.dense_file.cap w.counters,
    )
    | inr (e, z) ↦ ground arith
  ]

  leases_lem :
      (dir : Directory) (d : FileDriver)
      → IsDurable d
      → Holds crc32c dir d
      → read_leases crc32c dir.leases ≡ ok d.leases_file
  unfolding read_leases
  leases_lem dir d w h = elim h.leases [
    | inl e ↦ ground (
      arith,
      LeasesTrip.decode-encode_leases crc32c crc_word d.leases_file
          (Ascends-Distinct d.leases_file w.by_id) w.leases_fit w.few_leases,
      sort-sorted d.leases_file w.by_id,
    )
    | inr (e, z) ↦ ground arith
  ]

  pub open-reopen :
      (stopped_state_export : Bool) (dir : Directory) (d : FileDriver)
      → IsDurable d
      → Holds crc32c dir d
      → export_check crc32c stopped_state_export d.state_file d.dense_file d.leases_file ≡ ok tt
      → open_or_init crc32c stopped_state_export false dir ≡ ok (reopen d)
  unfolding open_or_init reopen
  open-reopen e dir d w h v =
      rw (state_lem dir d w h) (rw (dense_lem dir d w h) (rw (leases_lem dir d w h) (rw v refl)))

  -- A seed in range is written to a directory with no state file, is what the driver then opens
  -- with, beside no counters and no leases, and is not written over by another one.
  pub init_seeded-open :
      (seed again : ℕ)
      → seed ≤ physical_ms_max
      → again ≤ physical_ms_max
      → (dir : Directory) × (init_seeded crc32c false false seed
            (record { state = none; dense = none; leases = none })
          ≡ ok dir)
        × (open_or_init crc32c false false dir ≡ ok (opened crc32c seed empty_dense []))
        × (init_seeded crc32c false false again dir ≡ err state_exists)
  unfolding init_seeded open_or_init read_state read_dense read_leases
  init_seeded-open seed again h k = (
    record { state = some (HighWater.encode crc32c seed); dense = none; leases = none },
    ground arith,
    ground (arith, HighWaterTrip.decode-encode crc32c crc_word seed),
    ground arith,
  )
