-- ===== src/Records/Leases.antt =====
-- lease_record.rs: the leases, by ascending id. A word that is read with nothing left to read from
-- is `malformed`.
pub mod RoundTrip
use tsoracle.Prelude.{
  ℕ, zero, suc, ◌+◌, ◌-◌, ◌/◌, Bool, true, false, not, ltb, leb, if◌then◌else◌, Option, none, some,
  List, [], ◌∷◌, ◌++◌, length, Result, ok, err, ◌>>=◌, ◌>>◌, fail_if, ok_or, map_err,
}
use tsoracle.Lease.{LeaseRecord}
use tsoracle.Seq.{is_empty}
use tsoracle.Records.Bytes.{to_le_bytes, split_at, read_le}
use tsoracle.Records.Framed
use tsoracle.Records.Framed.{FrameError, header_len, crc_len}

abbrev pub magic : List ℕ
magic = b'T' ∷ b'S' ∷ b'O' ∷ b'O' ∷ []

abbrev pub version : ℕ
version = 1

abbrev pub min_len : ℕ
min_len = header_len + 4 + crc_len

pub data LeaseRecordError : Type 0 where
  too_short : ℕ → LeaseRecordError
  bad_magic : List ℕ → LeaseRecordError
  unsupported_version : ℕ → LeaseRecordError
  checksum_mismatch : (stored computed : ℕ) → LeaseRecordError
  malformed : LeaseRecordError

unfoldable pub from_frame_error : FrameError → LeaseRecordError
from_frame_error (FrameError.too_short n) = too_short n
from_frame_error (FrameError.bad_magic m) = bad_magic m
from_frame_error (FrameError.unsupported_version v) = unsupported_version v
from_frame_error (FrameError.checksum_mismatch s c) = checksum_mismatch s c
from_frame_error FrameError.malformed = malformed

-- `sort_by_key(|r| r.lease_id)`: records of one id stay in their order.
abbrev pub insert_by_id : LeaseRecord → List LeaseRecord → List LeaseRecord
insert_by_id r [] = r ∷ []
insert_by_id r (x ∷ rs) =
    let later = x ∷ insert_by_id r rs in if ltb x.lease_id r.lease_id then later else r ∷ x ∷ rs

unfoldable pub sort_by_id : List LeaseRecord → List LeaseRecord
sort_by_id [] = []
sort_by_id (r ∷ rs) = insert_by_id r (sort_by_id rs)

abbrev pub byte_of : Bool → ℕ
byte_of true = 1
byte_of false = 0

abbrev pub encode_tail : LeaseRecord → List ℕ → List ℕ
encode_tail r rest =
    to_le_bytes 8 r.holder_epoch
    ++ (to_le_bytes 8 r.ttl_ms
        ++ (to_le_bytes 8 r.ts_upper_bound
            ++ (to_le_bytes 8 r.expires_at_ms ++ (byte_of r.superseded ∷ rest))))

abbrev pub encode_record : LeaseRecord → List ℕ → List ℕ
encode_record r rest =
    to_le_bytes 8 r.lease_id
    ++ (to_le_bytes 2 (length r.holder) ++ (r.holder ++ encode_tail r rest))

unfoldable pub encode_records : List LeaseRecord → List ℕ
unfolding to_le_bytes
encode_records [] = []
encode_records (r ∷ rs) = encode_record r (encode_records rs)

abbrev pub not_above : Option ℕ → ℕ → Bool
not_above none id = false
not_above (some prev) id = leb id prev

unfoldable pub read_flag : List ℕ → Option (Bool × List ℕ)
read_flag [] = none
read_flag (zero ∷ rest) = some (false, rest)
read_flag (suc zero ∷ rest) = some (true, rest)
read_flag (suc (suc n) ∷ rest) = none

-- One round of the loop, after the holder.
unfoldable pub decode_tail : ℕ → List ℕ → List ℕ → Result LeaseRecordError (LeaseRecord × List ℕ)
unfolding read_le read_flag
decode_tail lease_id holder body = do
  (holder_epoch, body) ← ok_or (read_le 8 body) malformed
  (ttl_ms, body) ← ok_or (read_le 8 body) malformed
  (ts_upper_bound, body) ← ok_or (read_le 8 body) malformed
  (expires_at_ms, body) ← ok_or (read_le 8 body) malformed
  (superseded, body) ← ok_or (read_flag body) malformed
  ok (
    record {
      lease_id = lease_id;
      holder = holder;
      holder_epoch = holder_epoch;
      ttl_ms = ttl_ms;
      ts_upper_bound = ts_upper_bound;
      expires_at_ms = expires_at_ms;
      superseded = superseded;
    },
    body,
  )

unfoldable pub decode_record : Option ℕ → List ℕ → Result LeaseRecordError (LeaseRecord × List ℕ)
unfolding read_le split_at decode_tail
decode_record prev_id body = do
  fail_if (ltb (length body) 10) malformed
  (lease_id, body) ← ok_or (read_le 8 body) malformed
  fail_if (not_above prev_id lease_id) malformed
  (holder_len, body) ← ok_or (read_le 2 body) malformed
  fail_if (ltb (length body) (holder_len + 33)) malformed
  (holder, body) ← ok_or (split_at holder_len body) malformed
  decode_tail lease_id holder body

abbrev pub push_first :
    LeaseRecord → List LeaseRecord × List ℕ → Result LeaseRecordError (List LeaseRecord × List ℕ)
push_first r (rs, body) = ok (r ∷ rs, body)

unfoldable pub decode_records :
    ℕ → Option ℕ → List ℕ → Result LeaseRecordError (List LeaseRecord × List ℕ)
unfolding decode_record
decode_records zero prev_id body = ok ([], body)
decode_records (suc n) prev_id body = decode_record prev_id body >>= λ (r, rest).
    decode_records n (some r.lease_id) rest >>= push_first r

module _ (crc32c : List ℕ → ℕ) where
  unfoldable pub encode : List LeaseRecord → List ℕ
  unfolding encode_records sort_by_id to_le_bytes
  encode records =
      let sorted = sort_by_id records in
      Framed.encode crc32c magic version (to_le_bytes 4 (length sorted) ++ encode_records sorted)

  unfoldable pub decode : List ℕ → Result LeaseRecordError (List LeaseRecord)
  unfolding decode_records from_frame_error read_le
  decode bytes = do
    body ← map_err from_frame_error (Framed.decode crc32c bytes magic version min_len)
    (record_count, rest) ← ok_or (read_le 4 body) malformed
    fail_if (ltb ((length body - 4) / 43) record_count) malformed
    (records, rest) ← decode_records record_count none rest
    fail_if (not (is_empty rest)) malformed
    ok records
