-- ===== src/Allocator.antt =====
-- crates/tsoracle-core/src/allocator.rs: the window allocator. The struct's one field is the state
-- enum, which stands for it. Words wrap as a release build lets them.
mod Tests
pub mod Grants
pub mod Invariant
pub mod Extension
pub mod Order
use tsoracle.Prelude.{
  ℕ, ◌+◌, ◌-◌, ◌%◌, ◌^◌, ◌≤◌, ◌<◌, max, Bool, true, false, ◌||◌, Option, none, some, Result, ok,
  err, ltb, leb, ◌==◌, if◌then◌else◌, ◌>>=◌, ◌>>◌, fail_if, ok_or, is_ok, map_err, checked_add_u32,
  checked_add_u64,
}
use tsoracle.Timestamp.{logical_max, physical_ms_max, Timestamp, TimestampError, pack, try_pack}
use tsoracle.Timestamp
use tsoracle.Epoch.{Epoch, same_epoch}
use tsoracle.CoreError.{
  CoreError, window_exhausted, invalid_count, physical_ms_out_of_range, logical_range_out_of_range,
  invalid_leadership_window, window_extension_overflow, PhysicalMs, try_new_ms,
}

pub record WindowGrant : Type 0 where
  pub physical_ms : ℕ
  pub logical_start : ℕ
  pub count : ℕ
  pub epoch : Epoch

grant_error : ℕ → ℕ → TimestampError → CoreError
grant_error logical_start count (Timestamp.physical_ms_out_of_range p m) =
    physical_ms_out_of_range p
grant_error logical_start count (Timestamp.logical_out_of_range l m) =
    logical_range_out_of_range logical_start count

-- `WindowGrant::try_new`
unfoldable pub try_new_grant : ℕ → ℕ → ℕ → Epoch → Result CoreError WindowGrant
unfolding grant_error
try_new_grant physical_ms logical_start count epoch = do
  fail_if (count == 0) (invalid_count 0)
  last_logical ←
      ok_or (checked_add_u32 logical_start (count - 1))
        (logical_range_out_of_range logical_start count)
  _ ← map_err (grant_error logical_start count) (try_pack physical_ms last_logical)
  ok (record {
    physical_ms = physical_ms;
    logical_start = logical_start;
    count = count;
    epoch = epoch;
  })

-- `none` is the panic of `pack`.
unfoldable pub first : WindowGrant → Option Timestamp
first g = pack g.physical_ms g.logical_start

unfoldable pub last : WindowGrant → Option Timestamp
last g = pack g.physical_ms (g.logical_start + g.count - 1)

pub data IgnoreReason : Type 0 where
  not_leader : IgnoreReason
  epoch_mismatch : (expected current : Epoch) → IgnoreReason
  not_advanced : (persisted committed : ℕ) → IgnoreReason

pub data CommitOutcome : Type 0 where
  applied : (high_water : ℕ) → CommitOutcome
  ignored : IgnoreReason → CommitOutcome

pub record Leader : Type 0 where
  pub epoch : Epoch
  pub committed_high_water : ℕ
  pub next_physical_ms : ℕ
  pub next_logical : ℕ

pub data Allocator : Type 0 where
  not_leader : Allocator
  leader : Leader → Allocator

-- `Allocator::new`
abbrev pub new : Allocator
new = Allocator.not_leader

unfoldable pub become_leader :
    Allocator → PhysicalMs → PhysicalMs → Epoch → Result CoreError Allocator
become_leader a fence_floor committed_ceiling epoch =
    if ltb committed_ceiling.get fence_floor.get
    then err (invalid_leadership_window fence_floor.get committed_ceiling.get)
    else ok (
        leader (record {
          epoch = epoch;
          committed_high_water = committed_ceiling.get;
          next_physical_ms = fence_floor.get;
          next_logical = 0;
        }))

unfoldable pub step_down : Allocator → Allocator
step_down a = Allocator.not_leader

unfoldable pub is_leader : Allocator → Bool
is_leader (leader l) = true
is_leader Allocator.not_leader = false

unfoldable pub epoch_of : Allocator → Option Epoch
epoch_of (leader l) = some l.epoch
epoch_of Allocator.not_leader = none

unfoldable pub committed_high_water : Allocator → Option ℕ
committed_high_water (leader l) = some l.committed_high_water
committed_high_water Allocator.not_leader = none

unfoldable pub validate_count : ℕ → Result CoreError (Unit {0})
validate_count count = fail_if (count == 0 || ltb (logical_max + 1) count) (invalid_count count)

-- Move up to the wall clock, if that is ahead.
abbrev pub toward_clock : ℕ → ℕ × ℕ → ℕ × ℕ
toward_clock now_ms (p, l) = if ltb p now_ms then (now_ms, 0) else (p, l)

-- Move to the next millisecond, if the request does not fit in the rest of this one.
abbrev pub make_room : ℕ → ℕ × ℕ → ℕ × ℕ
make_room count (p, l) = if ltb (logical_max + 1) (l + count) then ((p + 1) % 2 ^ 64, 0) else (p, l)

abbrev pub check_bounds : ℕ → ℕ × ℕ → Result CoreError (ℕ × ℕ)
check_bounds committed (p, l) =
    if ltb physical_ms_max p
    then err (physical_ms_out_of_range p)
    else if ltb committed p
    then err window_exhausted
    else ok (p, l)

-- The `(physical_ms, logical_start)` that a grant would take.
unfoldable pub project_grant : ℕ → ℕ → ℕ → ℕ → ℕ → Result CoreError (ℕ × ℕ)
project_grant next_physical_ms next_logical committed now_ms count =
    check_bounds committed (make_room count (toward_clock now_ms (next_physical_ms, next_logical)))

unfoldable pub advance_cursor : ℕ → ℕ → ℕ → ℕ × ℕ
advance_cursor physical_ms logical_start count =
    let next_logical = (logical_start + count) % 2 ^ 32 in
    if ltb logical_max next_logical
    then ((physical_ms + 1) % 2 ^ 64, 0)
    else (physical_ms, next_logical)

-- `Self::project_grant(...)` at the fields of a leader
unfoldable pub project : Leader → ℕ → ℕ → Result CoreError (ℕ × ℕ)
unfolding project_grant
project l now_ms count =
    project_grant l.next_physical_ms l.next_logical l.committed_high_water now_ms count

-- The grant, and the cursor moved past it.
abbrev issue : Leader → ℕ → ℕ × ℕ → WindowGrant × Leader
unfolding advance_cursor
issue l count (p, s) =
    let (np, nl) = advance_cursor p s count in
    (
      record { physical_ms = p; logical_start = s; count = count; epoch = l.epoch },
      record l { next_physical_ms = np; next_logical = nl },
    )

grant_as_leader : Leader → ℕ → ℕ → Result CoreError (WindowGrant × Leader)
unfolding project issue validate_count
grant_as_leader l now_ms count = do
  validate_count count
  start ← project l now_ms count
  ok (issue l count start)

-- `try_grant`: a failed call leaves the state as it was.
unfoldable pub try_grant : Allocator → ℕ → ℕ → Result CoreError WindowGrant × Allocator
unfolding grant_as_leader
try_grant Allocator.not_leader now_ms count = (
  elim (validate_count count) [ ok _ ↦ err CoreError.not_leader | err e ↦ err e ],
  Allocator.not_leader,
)
try_grant (leader l) now_ms count = elim (grant_as_leader l now_ms count) [
  | ok (g, l') ↦ (ok g, leader l')
  | err e ↦ (err e, leader l)
]

unfoldable pub would_grant : Allocator → ℕ → ℕ → Bool
unfolding project validate_count
would_grant Allocator.not_leader now_ms count = false
would_grant (leader l) now_ms count =
    if is_ok (validate_count count) then is_ok (project l now_ms count) else false

unfoldable pub try_prepare_window_extension :
    Allocator → PhysicalMs → ℕ → Result CoreError PhysicalMs
unfolding try_new_ms
try_prepare_window_extension Allocator.not_leader now_ms ahead_ms = err CoreError.not_leader
try_prepare_window_extension (leader l) now_ms ahead_ms = do
  let floor = (l.committed_high_water + 1) % 2 ^ 64
  requested ←
      ok_or (checked_add_u64 (max floor now_ms.get) ahead_ms)
        (window_extension_overflow floor now_ms.get ahead_ms)
  try_new_ms requested

unfoldable pub try_prepare_lease_renewal : Allocator → PhysicalMs → ℕ → Result CoreError PhysicalMs
unfolding try_new_ms committed_high_water
try_prepare_lease_renewal a now_ms ttl_ms = do
  committed ← ok_or (committed_high_water a) CoreError.not_leader
  requested ←
      ok_or (checked_add_u64 now_ms.get ttl_ms)
        (window_extension_overflow committed now_ms.get ttl_ms)
  try_new_ms (max committed requested)

-- No path of it returns `Err`.
unfoldable pub try_commit_window_extension :
    Allocator → PhysicalMs → Epoch → CommitOutcome × Allocator
try_commit_window_extension Allocator.not_leader persisted expected =
    (ignored IgnoreReason.not_leader, Allocator.not_leader)
try_commit_window_extension (leader l) persisted expected =
    if same_epoch l.epoch expected
    then if leb persisted.get l.committed_high_water
      then (ignored (not_advanced persisted.get l.committed_high_water), leader l)
      else (applied persisted.get, leader (record l { committed_high_water = persisted.get }))
    else (ignored (epoch_mismatch expected l.epoch), leader l)
