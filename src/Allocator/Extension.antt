-- ===== src/Allocator/Extension.antt =====
-- Prepare, persist, commit, and the grant that is tried again.
use tsoracle.Prelude.{
  ℕ, ◌+◌, ◌≤◌, ◌<◌, ◌≡◌, ◌≢◌, max, Bool, true, Result, ok, err, is_ok, arith, u64_max,
}
use tsoracle.Timestamp.{logical_max, physical_ms_max}
use tsoracle.Epoch.{Epoch}
use tsoracle.CoreError.{
  CoreError, physical_ms_out_of_range, window_extension_overflow, PhysicalMs, InRange,
}
use tsoracle.Allocator.{
  Allocator, Leader, leader, CommitOutcome, applied, ignored, IgnoreReason, epoch_mismatch,
  not_advanced, try_grant, try_prepare_window_extension, try_prepare_lease_renewal,
  try_commit_window_extension,
}
use tsoracle.Allocator.Invariant.{IsSound}

-- What `try_prepare_window_extension` returns: the requested bound, or the reason against it.
abbrev pub Prepares : Leader → PhysicalMs → ℕ → Result CoreError PhysicalMs → Type 0
Prepares l now ahead (ok r) =
    (r.get ≡ max (l.committed_high_water + 1) now.get + ahead)
    × (r.get ≤ physical_ms_max)
    × (l.committed_high_water < r.get)
Prepares l now ahead (err (physical_ms_out_of_range p)) =
    (p ≡ max (l.committed_high_water + 1) now.get + ahead) × (physical_ms_max < p) × (p ≤ u64_max)
Prepares l now ahead (err (window_extension_overflow f n a)) =
    (f ≡ l.committed_high_water + 1)
    × (n ≡ now.get)
    × (a ≡ ahead)
    × (u64_max < max (l.committed_high_water + 1) now.get + ahead)
Prepares l now ahead (err _) = ⊥

-- On a sound leader an extension asks for a bound past the committed one and at least the
-- lookahead past the clock, and fails exactly when that leaves the packed field or the word.
pub prepare_lem :
    (l : Leader) (now : PhysicalMs) (ahead : ℕ)
    → IsSound l
    → Prepares l now ahead (try_prepare_window_extension (leader l) now ahead)
unfolding try_prepare_window_extension
prepare_lem l now ahead v = ground arith

-- What a renewal may answer.
abbrev pub Renews : Leader → PhysicalMs → ℕ → Result CoreError PhysicalMs → Type 0
Renews l now ttl (ok r) =
    (r.get ≡ max l.committed_high_water (now.get + ttl)) × (r.get ≤ physical_ms_max)
Renews l now ttl (err (physical_ms_out_of_range p)) =
    (p ≡ now.get + ttl) × (physical_ms_max < p) × (p ≤ u64_max)
Renews l now ttl (err (window_extension_overflow f n a)) =
    (f ≡ l.committed_high_water) × (n ≡ now.get) × (a ≡ ttl) × (u64_max < now.get + ttl)
Renews l now ttl (err _) = ⊥

-- On a sound leader a renewal asks for the committed bound where that covers the new term and for
-- the term's end otherwise, and fails exactly when that end leaves the packed field or the word.
pub renewal_lem :
    (l : Leader) (now : PhysicalMs) (ttl : ℕ)
    → IsSound l
    → Renews l now ttl (try_prepare_lease_renewal (leader l) now ttl)
unfolding try_prepare_lease_renewal
renewal_lem l now ttl v = ground arith

-- What a commit does: it raises the bound of the leader of the same epoch, or changes nothing.
abbrev pub Commits : Leader → PhysicalMs → Epoch → CommitOutcome × Allocator → Type 0
Commits l p e (applied w, a) =
    (e ≡ l.epoch)
    × (w ≡ p.get)
    × (l.committed_high_water < p.get)
    × (a ≡ leader (record l { committed_high_water = p.get }))
Commits l p e (ignored (epoch_mismatch x c), a) =
    (x ≡ e) × (c ≡ l.epoch) × (e.number ≢ l.epoch.number) × (a ≡ leader l)
Commits l p e (ignored (not_advanced q w), a) =
    (e ≡ l.epoch) × (q ≡ p.get) × (w ≡ l.committed_high_water) × (q ≤ w) × (a ≡ leader l)
Commits l p e (ignored IgnoreReason.not_leader, a) = ⊥

-- A commit is applied exactly when its epoch is the leader's and its bound is higher; a late one
-- of another epoch is dropped, whatever its bound, and a dropped one leaves the state alone.
pub commit_lem :
    (l : Leader) (p : PhysicalMs) (e : Epoch)
    → Commits l p e (try_commit_window_extension (leader l) p e)
unfolding try_commit_window_extension
commit_lem l p e = ground arith

-- Two calls: the commit of a bound that the driver returned, and the grant after it.
abbrev pub retry : Leader → PhysicalMs → ℕ → ℕ → Bool
retry l actual now count =
    is_ok (try_grant (try_commit_window_extension (leader l) actual l.epoch).1 now count).0

-- On a sound leader, for a count that one millisecond holds: if an extension could be prepared,
-- whatever its lookahead, then after the commit of any in-range bound at or past the one
-- requested, a grant at the same clock reading succeeds.
pub retry_succeeds :
    (l : Leader) (now actual requested : PhysicalMs) (ahead count : ℕ)
    → IsSound l
    → InRange actual
    → 0 < count
    → count ≤ logical_max + 1
    → try_prepare_window_extension (leader l) now ahead ≡ ok requested
    → requested.get ≤ actual.get
    → retry l actual now.get count ≡ true
unfolding try_prepare_window_extension try_commit_window_extension try_grant
retry_succeeds l now actual requested ahead count v hr hc hm hp ha = ground arith
