-- ===== src/Timestamp.antt =====
-- crates/tsoracle-core/src/timestamp.rs: the 64-bit packed timestamp, 46 bits of `physical_ms`
-- above 18 bits of `logical`. A `u64` shift drops what leaves the word.
mod Tests
pub mod Packing
use Prim.Native.Nat.{bit_and, bit_or}
use tsoracle.Prelude.{
  ℕ, ◌-◌, ◌*◌, ◌/◌, ◌%◌, ◌^◌, ◌<◌, ◌&&◌, Option, none, some, Result, ok, err, ltb, leb,
  if◌then◌else◌, ◌>>=◌, ◌>>◌, fail_if,
}

abbrev pub logical_bits : ℕ
logical_bits = 18

abbrev pub logical_mask : ℕ
logical_mask = 2 ^ logical_bits - 1

abbrev pub logical_max : ℕ
logical_max = 2 ^ logical_bits - 1

abbrev pub physical_ms_max : ℕ
physical_ms_max = 2 ^ (64 - logical_bits) - 1

pub data TimestampError : Type 0 where
  physical_ms_out_of_range : (physical_ms max : ℕ) → TimestampError
  logical_out_of_range : (logical max : ℕ) → TimestampError

-- `Timestamp(pub u64)`
pub record Timestamp : Type 0 where
  pub bits : ℕ

-- `(physical_ms << LOGICAL_BITS) | (logical as u64)`
unfoldable pub pack_bits : ℕ → ℕ → ℕ
pack_bits physical_ms logical = bit_or (physical_ms * 2 ^ logical_bits % 2 ^ 64) logical

-- `none` is a failed `assert!`.
unfoldable pub pack : ℕ → ℕ → Option Timestamp
pack physical_ms logical =
    if leb physical_ms physical_ms_max && leb logical logical_max
    then some (record { bits = pack_bits physical_ms logical })
    else none

unfoldable pub try_pack : ℕ → ℕ → Result TimestampError Timestamp
try_pack physical_ms logical = do
  fail_if (ltb physical_ms_max physical_ms) (physical_ms_out_of_range physical_ms physical_ms_max)
  fail_if (ltb logical_max logical) (logical_out_of_range logical logical_max)
  ok (record { bits = pack_bits physical_ms logical })

unfoldable pub physical_ms : Timestamp → ℕ
physical_ms t = t.bits / 2 ^ logical_bits

unfoldable pub logical : Timestamp → ℕ
logical t = bit_and t.bits logical_mask % 2 ^ 32

-- The derived `Ord`.
abbrev pub Before : Timestamp → Timestamp → Type 0
Before s t = s.bits < t.bits
