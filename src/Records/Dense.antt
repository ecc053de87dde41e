-- ===== src/Records/Dense.antt =====
-- dense_record.rs: the counters of the dense sequences and their cap. A word that is read with
-- nothing left to read from is `malformed`.
pub mod RoundTrip
use tsoracle.Prelude.{
  ℕ, zero, suc, ◌+◌, Bool, true, false, not, ltb, Option, none, some, List, [], ◌∷◌, ◌++◌, length,
  Result, ok, err, ◌>>=◌, ◌>>◌, fail_if, ok_or, map_err,
}
use tsoracle.BTreeMap.{BTreeMap, bytes_ord, cmp_bytes, insert, len}
use tsoracle.FileDriver.{Counters}
use tsoracle.Seq.{is_empty}
use tsoracle.Records.Bytes.{to_le_bytes, split_at, read_le}
use tsoracle.Records.Utf8.{is_utf8}
use tsoracle.Records.Framed
use tsoracle.Records.Framed.{FrameError, header_len, crc_len}
use Prim.Native.Nat.Ordering.{gt}

abbrev pub magic : List ℕ
magic = b'T' ∷ b'S' ∷ b'O' ∷ b'D' ∷ []

abbrev pub version : ℕ
version = 1

abbrev pub min_len : ℕ
min_len = header_len + 8 + 4 + crc_len

pub data DenseRecordError : Type 0 where
  too_short : ℕ → DenseRecordError
  bad_magic : List ℕ → DenseRecordError
  unsupported_version : ℕ → DenseRecordError
  checksum_mismatch : (stored computed : ℕ) → DenseRecordError
  malformed : DenseRecordError
  non_utf8_key : DenseRecordError

unfoldable pub from_frame_error : FrameError → DenseRecordError
from_frame_error (FrameError.too_short n) = too_short n
from_frame_error (FrameError.bad_magic m) = bad_magic m
from_frame_error (FrameError.unsupported_version v) = unsupported_version v
from_frame_error (FrameError.checksum_mismatch s c) = checksum_mismatch s c
from_frame_error FrameError.malformed = malformed

unfoldable pub encode_entries : Counters → List ℕ
unfolding to_le_bytes
encode_entries [] = []
encode_entries ((key, counter) ∷ m) =
    to_le_bytes 2 (length key) ++ (key ++ (to_le_bytes 8 counter ++ encode_entries m))

abbrev pub not_above : Option (List ℕ) → List ℕ → Bool
not_above none key = false
not_above (some prev) key = elim (cmp_bytes key prev) [ gt ↦ false | _ ↦ true ]

-- The rounds of the loop, from where the last key ended.
unfoldable pub decode_entries :
    ℕ → Option (List ℕ) → Counters → List ℕ → Result DenseRecordError (Counters × List ℕ)
unfolding split_at read_le
decode_entries zero prev_key map body = ok (map, body)
decode_entries (suc n) prev_key map body = do
  (klen, body) ← ok_or (read_le 2 body) malformed
  fail_if (ltb (length body) (klen + 8)) malformed
  (key, body) ← ok_or (split_at klen body) malformed
  fail_if (not (is_utf8 key)) non_utf8_key
  (counter, body) ← ok_or (read_le 8 body) malformed
  fail_if (not_above prev_key key) malformed
  decode_entries n (some key) (insert key counter map) body

module _ (crc32c : List ℕ → ℕ) where
  unfoldable pub encode : Counters → ℕ → List ℕ
  unfolding encode_entries to_le_bytes
  encode map cap =
      Framed.encode crc32c magic version
        (to_le_bytes 8 cap ++ (to_le_bytes 4 (len map) ++ encode_entries map))

  unfoldable pub decode : List ℕ → Result DenseRecordError (Counters × ℕ)
  unfolding decode_entries from_frame_error read_le
  decode bytes = do
    body ← map_err from_frame_error (Framed.decode crc32c bytes magic version min_len)
    (cap, body) ← ok_or (read_le 8 body) malformed
    (key_count, body) ← ok_or (read_le 4 body) malformed
    (map, body) ← decode_entries key_count none [] body
    fail_if (not (is_empty body)) malformed
    ok (map, cap)
