-- ===== src/CoreError.antt =====
-- crates/tsoracle-core/src/allocator.rs: `CoreError` and the validated `PhysicalMs`.
use tsoracle.Prelude.{ℕ, ◌≤◌, Result, ok, err, ltb, if◌then◌else◌}
use tsoracle.Timestamp.{physical_ms_max}

pub data CoreError : Type 0 where
  not_leader window_exhausted : CoreError
  invalid_count : (count : ℕ) → CoreError
  physical_ms_out_of_range : (physical_ms : ℕ) → CoreError
  logical_range_out_of_range : (logical_start count : ℕ) → CoreError
  invalid_leadership_window : (fence_floor committed_ceiling : ℕ) → CoreError
  window_extension_overflow : (floor now_ms ahead_ms : ℕ) → CoreError
  seq_key_empty : CoreError
  seq_key_too_long : (len max : ℕ) → CoreError
  seq_count_zero : CoreError
  seq_count_too_large : (count max : ℕ) → CoreError
  seq_block_overflow : (start count : ℕ) → CoreError

pub record PhysicalMs : Type 0 where
  pub get : ℕ

-- Only `try_new` builds one outside the crate, so every one is in range.
abbrev pub InRange : PhysicalMs → Type 0
InRange p = p.get ≤ physical_ms_max

-- `PhysicalMs::try_new`
unfoldable pub try_new_ms : ℕ → Result CoreError PhysicalMs
try_new_ms value =
    if ltb physical_ms_max value
    then err (physical_ms_out_of_range value)
    else ok (record { get = value })
