-- ===== src/Records/Leases/RoundTrip.antt =====
-- The lease record is read back as the leases that were written, by ascending id.
use tsoracle.Prelude.{
  ℕ, suc, ◌+◌, ◌-◌, ◌*◌, ◌/◌, ◌^◌, ◌≤◌, ◌<◌, ◌≡◌, ◌≢◌, true, false, ltb, refl, ap, ◌∙◌, Bool,
  Option, none, some, List, [], ◌∷◌, ◌++◌, length, length-append, ok, All, arith,
}
use tsoracle.Lease.{LeaseRecord}
use tsoracle.Records.Bytes.{to_le_bytes, length-to_le_bytes, read-to_le_bytes, split_at-append}
use tsoracle.Records.Framed.RoundTrip as Frame
use tsoracle.Records.Leases.{
  version, insert_by_id, sort_by_id, byte_of, encode_tail, encode_record, encode_records, not_above,
  read_flag, decode_tail, decode_record, decode_records, encode, decode,
}

-- What the widths of the file hold.
abbrev pub Fits : LeaseRecord → Type 0
Fits r =
    (r.lease_id < 2 ^ 64)
    × (length r.holder < 2 ^ 16)
    × (r.holder_epoch < 2 ^ 64)
    × (r.ttl_ms < 2 ^ 64)
    × (r.ts_upper_bound < 2 ^ 64)
    × (r.expires_at_ms < 2 ^ 64)

abbrev pub OtherId : LeaseRecord → LeaseRecord → Type 0
OtherId r x = x.lease_id ≢ r.lease_id

-- No two records have one id.
abbrev pub Distinct : List LeaseRecord → Type 0
Distinct [] = Unit
Distinct (r ∷ rs) = All (OtherId r) rs × Distinct rs

-- The ids ascend, from above `n`.
abbrev pub AboveId : ℕ → List LeaseRecord → Type 0
AboveId n [] = Unit
AboveId n (r ∷ rs) = (n < r.lease_id) × AboveId r.lease_id rs

abbrev pub Ascends : List LeaseRecord → Type 0
Ascends [] = Unit
Ascends (r ∷ rs) = AboveId r.lease_id rs

insert-AboveId :
    (n : ℕ) (r : LeaseRecord) (rs : List LeaseRecord)
    → n < r.lease_id
    → AboveId n rs
    → All (OtherId r) rs
    → AboveId n (insert_by_id r rs)
insert-AboveId n r [] h a o = (h, tt)
insert-AboveId n r (x ∷ rs) h (a, as_) (o, os) = ground (arith, insert-AboveId x.lease_id r rs)

insert-Ascends :
    (r : LeaseRecord) (rs : List LeaseRecord)
    → Ascends rs
    → All (OtherId r) rs
    → Ascends (insert_by_id r rs)
insert-Ascends r [] a o = tt
insert-Ascends r (x ∷ rs) a (o, os) = ground (arith, insert-AboveId x.lease_id r rs)

insert-All {ℓ} :
    (P : LeaseRecord → Type ℓ) (r : LeaseRecord) (rs : List LeaseRecord)
    → P r
    → All P rs
    → All P (insert_by_id r rs)
insert-All P r [] p ps = (p, ps)
insert-All P r (x ∷ rs) p (q, qs) = ground (arith, insert-All P r rs p qs)

pub sort-All {ℓ} :
    (P : LeaseRecord → Type ℓ) (rs : List LeaseRecord) → All P rs → All P (sort_by_id rs)
unfolding sort_by_id
sort-All P [] ps = ps
sort-All P (r ∷ rs) (p, ps) = insert-All P r (sort_by_id rs) p (sort-All P rs ps)

pub sort-Ascends : (rs : List LeaseRecord) → Distinct rs → Ascends (sort_by_id rs)
unfolding sort_by_id
sort-Ascends [] d = tt
sort-Ascends (r ∷ rs) (o, d) =
    insert-Ascends r (sort_by_id rs) (sort-Ascends rs d) (sort-All (OtherId r) rs o)

length-insert :
    (r : LeaseRecord) (rs : List LeaseRecord) → length (insert_by_id r rs) ≡ suc (length rs)
length-insert r [] = refl
length-insert r (x ∷ rs) = ground (arith, length-insert r rs)

length-sort : (rs : List LeaseRecord) → length (sort_by_id rs) ≡ length rs
unfolding sort_by_id
length-sort [] = refl
length-sort (r ∷ rs) = length-insert r (sort_by_id rs) ∙ ap suc (length-sort rs)

-- In order already, the records stay as they are.
pub sort-sorted : (rs : List LeaseRecord) → Ascends rs → sort_by_id rs ≡ rs
unfolding sort_by_id
sort-sorted [] a = refl
sort-sorted (r ∷ []) a = refl
sort-sorted (r ∷ x ∷ rs) (h, a) = rw (sort-sorted (x ∷ rs) a) (ground arith)

read_byte_of : (b : Bool) (rest : List ℕ) → read_flag (byte_of b ∷ rest) ≡ some (b, rest)
unfolding read_flag
read_byte_of true rest = refl
read_byte_of false rest = refl

tail_trip :
    (r : LeaseRecord) (rest : List ℕ)
    → Fits r
    → decode_tail r.lease_id r.holder (encode_tail r rest) ≡ ok (r, rest)
unfolding decode_tail
tail_trip r rest (_, _, e, t, b, x) =
    let last = byte_of r.superseded ∷ rest in
    let third = to_le_bytes 8 r.expires_at_ms ++ last in
    let second = to_le_bytes 8 r.ts_upper_bound ++ third in
    rw (read-to_le_bytes 8 r.holder_epoch (to_le_bytes 8 r.ttl_ms ++ second) e) (
      rw (read-to_le_bytes 8 r.ttl_ms second t) (
        rw (read-to_le_bytes 8 r.ts_upper_bound third b) (
          rw (read-to_le_bytes 8 r.expires_at_ms last x)
            (rw (read_byte_of r.superseded rest) refl))))

length-tail : (r : LeaseRecord) (rest : List ℕ) → length (encode_tail r rest) ≡ 33 + length rest
length-tail r rest =
    let last = byte_of r.superseded ∷ rest in
    let third = to_le_bytes 8 r.expires_at_ms ++ last in
    let second = to_le_bytes 8 r.ts_upper_bound ++ third in
    omega (
      arith,
      length-append {0} (to_le_bytes 8 r.holder_epoch) (to_le_bytes 8 r.ttl_ms ++ second),
      length-append {0} (to_le_bytes 8 r.ttl_ms) second,
      length-append {0} (to_le_bytes 8 r.ts_upper_bound) third,
      length-append {0} (to_le_bytes 8 r.expires_at_ms) last,
      length-to_le_bytes 8 r.holder_epoch,
      length-to_le_bytes 8 r.ttl_ms,
      length-to_le_bytes 8 r.ts_upper_bound,
      length-to_le_bytes 8 r.expires_at_ms,
    )

length-record :
    (r : LeaseRecord) (rest : List ℕ)
    → length (encode_record r rest) ≡ 43 + length r.holder + length rest
length-record r rest = omega (
  arith,
  length-append {0} (to_le_bytes 8 r.lease_id)
      (to_le_bytes 2 (length r.holder) ++ (r.holder ++ encode_tail r rest)),
  length-append {0} (to_le_bytes 2 (length r.holder)) (r.holder ++ encode_tail r rest),
  length-append {0} r.holder (encode_tail r rest),
  length-tail r rest,
  length-to_le_bytes 8 r.lease_id,
  length-to_le_bytes 2 (length r.holder),
)

length-records : (rs : List LeaseRecord) → 43 * length rs ≤ length (encode_records rs)
unfolding encode_records
length-records [] = omega arith
length-records (r ∷ rs) = omega (arith, length-record r (encode_records rs), length-records rs)

record_trip :
    (prev : Option ℕ) (r : LeaseRecord) (rest : List ℕ)
    → Fits r
    → not_above prev r.lease_id ≡ false
    → decode_record prev (encode_record r rest) ≡ ok (r, rest)
unfolding decode_record
record_trip prev r rest f above =
    let whole : ltb (length (encode_record r rest)) 10 ≡ false =
      ground (arith, length-record r rest) in
    let enough : ltb (length (r.holder ++ encode_tail r rest)) (length r.holder + 33) ≡ false =
      ground (arith, length-append r.holder (encode_tail r rest), length-tail r rest) in
    rw whole (
      rw
        (read-to_le_bytes 8 r.lease_id
          (to_le_bytes 2 (length r.holder) ++ (r.holder ++ encode_tail r rest)) f.0)
        (rw (above, read-to_le_bytes 2 (length r.holder) (r.holder ++ encode_tail r rest) f.1)
          (rw (enough, split_at-append (length r.holder) r.holder (encode_tail r rest) refl)
            (tail_trip r rest f))))

abbrev AscendsFrom : Option ℕ → List LeaseRecord → Type 0
AscendsFrom none rs = Ascends rs
AscendsFrom (some n) rs = AboveId n rs

first_above :
    (prev : Option ℕ) (r : LeaseRecord) (rs : List LeaseRecord)
    → AscendsFrom prev (r ∷ rs)
    → (not_above prev r.lease_id ≡ false) × AboveId r.lease_id rs
first_above none r rs a = (refl, a)
first_above (some n) r rs (h, a) = (ground arith, a)

records_trip :
    (rs : List LeaseRecord) (prev : Option ℕ)
    → All Fits rs
    → AscendsFrom prev rs
    → decode_records (length rs) prev (encode_records rs) ≡ ok (rs, [])
unfolding decode_records encode_records
records_trip [] prev fs a = refl
records_trip (r ∷ rs) prev (f, fs) a =
    let (above, rest) = first_above prev r rs a in
    rw (record_trip prev r (encode_records rs) f above)
      (rw (records_trip rs (some r.lease_id) fs rest) refl)

module _ (crc32c : List ℕ → ℕ) (crc_word : (bs : List ℕ) → crc32c bs < 2 ^ 32) where
  -- For fewer than 2^32 leases with ids of their own, words of 64 bits and holders of under 2^16
  -- bytes: the record that is written is read back as the same leases, sorted by id.
  pub decode-encode_leases :
      (rs : List LeaseRecord)
      → Distinct rs
      → All Fits rs
      → length rs < 2 ^ 32
      → (decode crc32c (encode crc32c rs) ≡ ok (sort_by_id rs)) × Ascends (sort_by_id rs)
  unfolding decode encode
  decode-encode_leases rs d f n =
      let sorted = sort_by_id rs in
      let body = to_le_bytes 4 (length sorted) ++ encode_records sorted in
      let wide : length body ≡ 4 + length (encode_records sorted) = omega (
        arith,
        length-append {0} (to_le_bytes 4 (length sorted)) (encode_records sorted),
        length-to_le_bytes 4 (length sorted),
      ) in
      let room : ltb ((length body - 4) / 43) (length sorted) ≡ false =
        ground (arith, wide, length-records sorted) in
      (
        ground (
          arith,
          Frame.decode-encode crc32c crc_word b'T' b'S' b'O' b'O' version 13 body
              (omega (arith, wide)),
          read-to_le_bytes 4 (length sorted) (encode_records sorted)
              (omega (arith, length-sort rs)),
          room,
          records_trip sorted none (sort-All Fits rs f) (sort-Ascends rs d),
        ),
        sort-Ascends rs d,
      )
