-- ===== src/Allocator/Invariant.antt =====
-- What holds of an allocator between calls, and that every operation keeps it.
use tsoracle.Prelude.{ℕ, ◌+◌, ◌*◌, ◌^◌, ◌≤◌, ◌≡◌, ◌⊎◌, Result, ok, err, arith}
use tsoracle.Timestamp.{logical_max, physical_ms_max}
use tsoracle.Epoch.{Epoch}
use tsoracle.CoreError.{PhysicalMs, InRange}
use tsoracle.Allocator.{
  Allocator, Leader, leader, not_leader, become_leader, try_grant, try_commit_window_extension,
}

-- The bound and the cursor fit the packed word. A cursor past the bound stands at the start of the
-- next millisecond.
pub record IsSound (l : Leader) : Type 0 where
  pub bounded : l.committed_high_water ≤ physical_ms_max
  pub packable : l.next_logical ≤ logical_max
  pub within :
      (l.next_physical_ms ≤ l.committed_high_water)
      ⊎ ((l.next_physical_ms ≡ l.committed_high_water + 1) × (l.next_logical ≡ 0))

abbrev pub IsValid : Allocator → Type 0
IsValid not_leader = Unit
IsValid (leader l) = IsSound l

-- The least packed value that the cursor still allows.
abbrev pub position : ℕ → ℕ → ℕ
position p l = p * 2 ^ 18 + l

abbrev pub ValidResult {ℓ} : {E : Type ℓ} → Result E Allocator → Type 0
ValidResult (ok a) = IsValid a
ValidResult (err e) = Unit

pub become_leader-IsValid :
    (a : Allocator) (f c : PhysicalMs) (e : Epoch) → InRange c → ValidResult (become_leader a f c e)
unfolding become_leader
become_leader-IsValid a f c e hc = ground arith

pub try_grant-IsValid :
    (a : Allocator) (now count : ℕ) → IsValid a → IsValid (try_grant a now count).1
unfolding try_grant
try_grant-IsValid not_leader now count v = tt
try_grant-IsValid (leader l) now count v = ground arith

pub commit-IsValid :
    (a : Allocator) (p : PhysicalMs) (e : Epoch)
    → InRange p
    → IsValid a
    → IsValid (try_commit_window_extension a p e).1
unfolding try_commit_window_extension
commit-IsValid not_leader p e h v = tt
commit-IsValid (leader l) p e h v = ground arith
