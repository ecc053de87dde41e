-- ===== src/Records/Framed.antt =====
-- framed_record.rs: a magic, a version, a payload and its checksum.
pub mod RoundTrip
use tsoracle.Prelude.{
  ℕ, zero, suc, ◌+◌, ◌-◌, not, ltb, ◌==◌, List, [], ◌∷◌, ◌++◌, length, Result, ok, err, ◌>>=◌, ◌>>◌,
  fail_if,
}
use tsoracle.BTreeMap.{same, bytes_ord}
use tsoracle.Records.Bytes.{to_le_bytes, from_le_bytes, take, drop}

abbrev pub header_len : ℕ
header_len = 5

abbrev pub crc_len : ℕ
crc_len = 4

pub data FrameError : Type 0 where
  too_short : ℕ → FrameError
  bad_magic : List ℕ → FrameError
  unsupported_version : ℕ → FrameError
  checksum_mismatch : (stored computed : ℕ) → FrameError
  malformed : FrameError

-- `bytes[i]`; the minimum length of a record covers the version's place.
abbrev pub byte_at : ℕ → List ℕ → ℕ
byte_at i [] = 0
byte_at zero (b ∷ bs) = b
byte_at (suc i) (b ∷ bs) = byte_at i bs

module _ (crc32c : List ℕ → ℕ) where
  abbrev pub framed_body : List ℕ → ℕ → List ℕ → List ℕ
  framed_body magic version payload = magic ++ (version ∷ payload)

  unfoldable pub encode : List ℕ → ℕ → List ℕ → List ℕ
  unfolding to_le_bytes
  encode magic version payload =
      framed_body magic version payload
      ++ to_le_bytes crc_len (crc32c (framed_body magic version payload))

  unfoldable pub decode : List ℕ → List ℕ → ℕ → ℕ → Result FrameError (List ℕ)
  unfolding from_le_bytes
  decode bytes magic version minimum_len = do
    fail_if (ltb (length bytes) minimum_len) (too_short (length bytes))
    fail_if (not (same (take 4 bytes) magic)) (bad_magic (take 4 bytes))
    fail_if (not (byte_at 4 bytes == version)) (unsupported_version (byte_at 4 bytes))
    let body = take (length bytes - crc_len) bytes
    let stored = from_le_bytes (drop (length bytes - crc_len) bytes)
    fail_if (not (stored == crc32c body)) (checksum_mismatch stored (crc32c body))
    ok (drop header_len body)
