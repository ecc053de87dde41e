-- ===== src/Records/HighWater.antt =====
-- record.rs: the 17 bytes that hold the high-water.
pub mod RoundTrip
use tsoracle.Prelude.{
  ℕ, ◌^◌, ◌<◌, ◌≡◌, Bool, not, ltb, ◌==◌, List, [], ◌∷◌, ◌++◌, length, Result, ok, err, ◌>>=◌, ◌>>◌,
  fail_if, ok_or, All, arith,
}
use tsoracle.BTreeMap.{same, bytes_ord}
use tsoracle.Records.Bytes.{IsByte, to_le_bytes, take, split_at, read_le}

abbrev pub magic : List ℕ
magic = b'T' ∷ b'S' ∷ b'O' ∷ b'R' ∷ []

abbrev pub version : ℕ
version = 1

abbrev pub record_len : ℕ
record_len = 17

pub data RecordError : Type 0 where
  too_short : ℕ → RecordError
  bad_magic : List ℕ → RecordError
  unsupported_version : ℕ → RecordError
  crc_mismatch : (expected computed : ℕ) → RecordError
  trailing_bytes : (len : ℕ) → RecordError

module _ (crc32c : List ℕ → ℕ) where
  abbrev head : ℕ → List ℕ
  head high_water = magic ++ (version ∷ to_le_bytes 8 high_water)

  unfoldable pub encode : ℕ → List ℕ
  unfolding to_le_bytes
  encode high_water = head high_water ++ to_le_bytes 4 (crc32c (head high_water))

  -- `read_array` from where the last one ended
  abbrev read_word : ℕ → List ℕ → List ℕ → Result RecordError (ℕ × List ℕ)
  unfolding read_le
  read_word w bytes rest = ok_or (read_le w rest) (too_short (length bytes))

  unfoldable pub decode : List ℕ → Result RecordError ℕ
  unfolding split_at read_le
  decode bytes = do
    fail_if (ltb record_len (length bytes)) (trailing_bytes (length bytes))
    (found, rest) ← ok_or (split_at 4 bytes) (too_short (length bytes))
    fail_if (not (same found magic)) (bad_magic found)
    (v, rest) ← read_word 1 bytes rest
    fail_if (not (v == version)) (unsupported_version v)
    (high_water, rest) ← read_word 8 bytes rest
    (crc_recorded, rest) ← read_word 4 bytes rest
    fail_if (not (crc_recorded == crc32c (take 13 bytes)))
        (crc_mismatch crc_recorded (crc32c (take 13 bytes)))
    ok high_water
