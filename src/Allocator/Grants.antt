-- ===== src/Allocator/Grants.antt =====
-- `try_grant` against a description of what it looks for: the least start that the cursor, the
-- clock and the width of the logical field allow.
use tsoracle.Prelude.{ℕ, ◌+◌, ◌-◌, ◌≤◌, ◌<◌, ◌≡◌, some, ◌⊎◌, Result, ok, err, is_ok, arith}
use tsoracle.Timestamp.{logical_max, physical_ms_max, Timestamp, pack_bits, pack, try_pack}
use tsoracle.Timestamp.Packing.{pack_bits_sum}
use tsoracle.CoreError.{CoreError, window_exhausted, invalid_count, physical_ms_out_of_range}
use tsoracle.Allocator.{
  Allocator, Leader, leader, not_leader, WindowGrant, try_grant, would_grant, try_new_grant, first,
  last,
}
use tsoracle.Allocator.Invariant.{IsSound, position}

-- `count` timestamps starting at `(q, k)` lie in one millisecond, none before the cursor and
-- none in a millisecond before the clock's.
abbrev pub CanStart : Leader → ℕ → ℕ → ℕ → ℕ → Type 0
CanStart l now count q k =
    (position l.next_physical_ms l.next_logical ≤ position q k)
    × (k + count ≤ logical_max + 1)
    × (now ≤ q)

-- What a call may answer: the grant's own facts, or why there is none.
abbrev pub Answers : Leader → ℕ → ℕ → Result CoreError WindowGrant × Allocator → Type 0
Answers l now count (ok g, leader l') =
    (0 < count)
    × (g.count ≡ count)
    × (g.epoch ≡ l.epoch)
    × CanStart l now count g.physical_ms g.logical_start
    × (g.physical_ms ≤ l.committed_high_water)
    × (position l'.next_physical_ms l'.next_logical
        ≡ position g.physical_ms g.logical_start + count)
    × (l'.committed_high_water ≡ l.committed_high_water)
    × (l'.epoch ≡ l.epoch)
Answers l now count (ok g, not_leader) = ⊥
Answers l now count (err e, not_leader) = ⊥
Answers l now count (err (invalid_count c), leader l') =
    (l' ≡ l) × (c ≡ count) × ((count ≡ 0) ⊎ (logical_max + 1 < count))
Answers l now count (err window_exhausted, leader l') = (l' ≡ l) × (0 < count)
Answers l now count (err (physical_ms_out_of_range p), leader l') =
    (l' ≡ l) × (0 < count) × (physical_ms_max < p)
Answers l now count (err _, leader l') = ⊥

pub try_grant-Answers :
    (l : Leader) (now count : ℕ) → IsSound l → Answers l now count (try_grant (leader l) now count)
unfolding try_grant
try_grant-Answers l now count v = ground arith

-- Against any other start: a grant's is the least, and without one every start is past the bound.
abbrev pub Least : Leader → ℕ → ℕ → ℕ → Result CoreError WindowGrant → Type 0
Least l count q k (ok g) = position g.physical_ms g.logical_start ≤ position q k
Least l count q k (err (invalid_count c)) = Unit
Least l count q k (err e) = l.committed_high_water < q

try_grant-Least :
    (l : Leader) (now count q k : ℕ)
    → IsSound l
    → CanStart l now count q k
    → Least l count q k (try_grant (leader l) now count).0
unfolding try_grant
try_grant-Least l now count q k v s = ground arith

-- On a sound leader `try_grant` grants `count` timestamps of one millisecond that is not behind the
-- clock or the cursor and within the committed bound, from the least possible start, and puts the
-- cursor right behind them; it refuses a bad count, or when every possible start is past the
-- bound, and then changes nothing.
pub try_grant_lem :
    (l : Leader) (now count : ℕ)
    → IsSound l
    → Answers l now count (try_grant (leader l) now count)
      × ((q k : ℕ)
          → CanStart l now count q k
          → Least l count q k (try_grant (leader l) now count).0)
try_grant_lem l now count v =
    (try_grant-Answers l now count v, λ q k. try_grant-Least l now count q k v)

-- What every granted block is: the value that the checking constructor builds of its fields, with
-- a first and a last timestamp that pack.
abbrev pub Checked : Result CoreError WindowGrant × Allocator → Type 0
Checked (ok g, a) =
    (try_new_grant g.physical_ms g.logical_start g.count g.epoch ≡ ok g)
    × ((s : Timestamp) × (first g ≡ some s) × (s.bits ≡ position g.physical_ms g.logical_start))
    × ((t : Timestamp) × (last g ≡ some t)
        × (t.bits + 1 ≡ position g.physical_ms g.logical_start + g.count))
Checked (err e, a) = Unit

grant-Checked :
    (g : WindowGrant)
    → 0 < g.count
    → g.physical_ms ≤ physical_ms_max
    → g.logical_start + g.count ≤ logical_max + 1
    → Checked (ok g, not_leader)
unfolding try_new_grant try_pack first last pack
grant-Checked g c p f = (
  ground arith,
  (
    record { bits = pack_bits g.physical_ms g.logical_start },
    ground arith,
    omega (arith, pack_bits_sum g.physical_ms g.logical_start),
  ),
  (
    record { bits = pack_bits g.physical_ms (g.logical_start + g.count - 1) },
    ground arith,
    omega (arith, pack_bits_sum g.physical_ms (g.logical_start + g.count - 1)),
  ),
)

grant_is_Checked :
    (l : Leader) (r : Result CoreError WindowGrant × Allocator) (now count : ℕ)
    → IsSound l
    → Answers l now count r
    → Checked r
grant_is_Checked l (err e, a) now count v h = tt
grant_is_Checked l (ok g, not_leader) now count v h = absurd h
grant_is_Checked l (ok g, leader l') now count v h =
    grant-Checked g (omega arith) (omega (arith, v.bounded)) (omega arith)

-- A block that `try_grant` builds on a sound leader, without checks, is the one that the checking
-- constructor would accept, and its first and last timestamps pack: no such block can make `pack`
-- panic.
pub try_grant-Checked :
    (l : Leader) (now count : ℕ) → IsSound l → Checked (try_grant (leader l) now count)
try_grant-Checked l now count v = grant_is_Checked l _ now count v (try_grant-Answers l now count v)

-- `would_grant` answers exactly whether `try_grant` would succeed now, on and off the leader.
pub would_grant-eq :
    (a : Allocator) (now count : ℕ) → would_grant a now count ≡ is_ok (try_grant a now count).0
unfolding would_grant try_grant
would_grant-eq not_leader now count = ground arith
would_grant-eq (leader l) now count = ground arith
