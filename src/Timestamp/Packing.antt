-- ===== src/Timestamp/Packing.antt =====
-- The packed word keeps both fields, and its order is that of the pairs.
use tsoracle.Prelude.{
  ℕ, ◌+◌, ◌*◌, ◌%◌, ◌^◌, ◌≤◌, ◌<◌, ◌≡◌, refl, ◌⊎◌, ◌↔◌, none, some, Result, ok, err, arith,
}
use tsoracle.Bits.{bit_or_shifted, bit_and_mask}
use tsoracle.Timestamp.{
  logical_mask, logical_max, physical_ms_max, Timestamp, TimestampError, physical_ms_out_of_range,
  logical_out_of_range, pack_bits, pack, try_pack, physical_ms, logical,
}

-- In range, the packed word is a sum.
pub pack_bits_sum :
    (p l : ℕ) → p ≤ physical_ms_max → l ≤ logical_max → pack_bits p l ≡ p * 2 ^ 18 + l
unfolding pack_bits
pack_bits_sum p l hp hl =
    let whole : p * 2 ^ 18 % 2 ^ 64 ≡ p * 2 ^ 18 = omega arith in
    rw whole (bit_or_shifted 18 p l (omega arith))

logical_mod : (t : Timestamp) → logical t ≡ t.bits % 2 ^ 18
unfolding logical
logical_mod t = omega (arith, bit_and_mask 18 logical_mask t.bits refl)

-- A value of the right fields reads them back.
pub read-back :
    (p l : ℕ)
    → p ≤ physical_ms_max
    → l ≤ logical_max
    → let t : Timestamp = record { bits = pack_bits p l } in (physical_ms t ≡ p) × (logical t ≡ l)
unfolding physical_ms
read-back p l hp hl =
    omega (arith, pack_bits_sum p l hp hl, logical_mod (record { bits = pack_bits p l }))

-- What `try_pack` promises of its result.
abbrev pub Packs : ℕ → ℕ → Result TimestampError Timestamp → Type 0
Packs p l (ok t) =
    (p ≤ physical_ms_max)
    × (l ≤ logical_max)
    × (physical_ms t ≡ p)
    × (logical t ≡ l)
    × (pack p l ≡ some t)
Packs p l (err (physical_ms_out_of_range q m)) =
    (physical_ms_max < p) × (q ≡ p) × (m ≡ physical_ms_max) × (pack p l ≡ none)
Packs p l (err (logical_out_of_range k m)) =
    (p ≤ physical_ms_max) × (logical_max < l) × (k ≡ l) × (m ≡ logical_max) × (pack p l ≡ none)

-- `try_pack` succeeds exactly on fields that fit, its word gives both fields back and is the one
-- that `pack` returns; otherwise it names the first field that is too large, and `pack` panics.
pub try_pack-Packs : (p l : ℕ) → Packs p l (try_pack p l)
unfolding try_pack pack
try_pack-Packs p l = ground (arith, read-back p l)

-- Two words that `pack` returns are ordered as the pairs of their fields, the physical one first.
pub pack-lt :
    (p l q k : ℕ) {s t : Timestamp}
    → pack p l ≡ some s
    → pack q k ≡ some t
    → (s.bits < t.bits) ↔ ((p < q) ⊎ ((p ≡ q) × (l < k)))
unfolding pack
pack-lt p l q k hs ht = ground (arith, pack_bits_sum p l, pack_bits_sum q k)
