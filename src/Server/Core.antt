-- ===== src/Server/Core.antt =====
-- crates/tsoracle-server/src/serving_core.rs: the serving state beside the allocator, the sequence
-- gate and the lease table. Each method takes one lock at a time, and runs here in one step.
use tsoracle.Prelude.{
  ℕ, ◌+◌, ◌-◌, ◌%◌, ◌^◌, min, if◌then◌else◌, Bool, true, false, Option, none, some, List, Result,
  ok, err, ◌>>=◌, ok_or,
}
use tsoracle.Epoch.{Epoch, same_epoch}
use tsoracle.CoreError.{CoreError, try_new_ms}
use tsoracle.Allocator.{
  Allocator, WindowGrant, CommitOutcome, try_grant, would_grant, committed_high_water,
  try_prepare_window_extension, try_prepare_lease_renewal, try_commit_window_extension,
}
use tsoracle.Allocator as Alloc
use tsoracle.Seq.{SeqAllocator, SeqKey, validate_request}
use tsoracle.Seq as Seq
use tsoracle.Lease.{
  LeaseRecord, LeaseTable, LeaseError, AcquireDecision, prepare_acquire, prepare_renew,
  prepare_release, commit_acquire, commit_renew, commit_release, projected_live_set,
  min_unexpired_bound, seed, clear,
}
use tsoracle.Lease as Lease
use tsoracle.Peer.{PeerEndpoint}

pub data ServingState : Type 0 where
  not_serving : (leader_endpoint : Option PeerEndpoint) (leader_epoch : Option Epoch) → ServingState
  serving : ServingState

pub record ServingCore : Type 0 where
  pub allocator : Allocator
  pub seq_allocator : SeqAllocator
  pub lease_table : LeaseTable
  pub state : ServingState
  pub window_ahead_ms : ℕ
  pub max_seq_count : ℕ
  pub max_seq_batch_keys : ℕ

abbrev pub new : ℕ → ℕ → ℕ → ServingCore
new window_ahead_ms max_seq_count max_seq_batch_keys = record {
  allocator = Alloc.new;
  seq_allocator = Seq.new;
  lease_table = Lease.new;
  state = not_serving none none;
  window_ahead_ms = window_ahead_ms;
  max_seq_count = max_seq_count;
  max_seq_batch_keys = max_seq_batch_keys;
}

-- 0 where there is no leader
abbrev pub or_zero : Option ℕ → ℕ
or_zero none = 0
or_zero (some n) = n

-- `window_ms` is an `as u64` cast, and one is added to it on 64 bits.
unfoldable pub current_max_safe_physical_ms : ServingCore → ℕ
current_max_safe_physical_ms c = elim (committed_high_water c.allocator) [
  | none ↦ 0
  | some persisted ↦ persisted - (c.window_ahead_ms % 2 ^ 64 + 1) % 2 ^ 64
]

abbrev pub current_epoch : ServingCore → Option Epoch
current_epoch c = Alloc.epoch_of c.allocator

-- The frontier: the committed bound, held back by the least bound of an unexpired lease.
abbrev pub hold_back : ℕ → Option ℕ → ℕ
hold_back high_water none = high_water
hold_back high_water (some bound) = min high_water bound

unfoldable pub safe_frontier_physical_ms : ServingCore → ℕ → ℕ
safe_frontier_physical_ms c now_ms = elim (committed_high_water c.allocator) [
  | none ↦ 0
  | some high_water ↦ hold_back high_water (min_unexpired_bound c.lease_table now_ms)
]

abbrev pub is_serving_state : ServingState → Bool
is_serving_state serving = true
is_serving_state (not_serving p e) = false

abbrev pub is_serving : ServingCore → Bool
is_serving c = is_serving_state c.state

unfoldable pub publish_serving : ServingCore → ServingCore
publish_serving c = record c { state = serving }

unfoldable pub publish_not_serving : Option PeerEndpoint → Option Epoch → ServingCore → ServingCore
publish_not_serving leader_endpoint leader_epoch c = record c {
  state = not_serving leader_endpoint leader_epoch;
}

unfoldable pub step_down : Option PeerEndpoint → Option Epoch → ServingCore → ServingCore
step_down leader_endpoint leader_epoch c = record c {
  allocator = Alloc.step_down c.allocator;
  seq_allocator = Seq.step_down c.seq_allocator;
  lease_table = clear c.lease_table;
  state = not_serving leader_endpoint leader_epoch;
}

unfoldable pub enter_fencing : ServingCore → ServingCore
unfolding step_down
enter_fencing c = step_down none none c

unfoldable pub core_try_grant : ℕ → ℕ → ServingCore → Result CoreError WindowGrant × ServingCore
core_try_grant now_ms count c =
    let (r, a) = try_grant c.allocator now_ms count in (r, record c { allocator = a })

unfoldable pub seed_on_leadership_gained :
    ℕ → ℕ → Epoch → ServingCore → Result CoreError ServingCore
seed_on_leadership_gained serving_floor committed_ceiling epoch c = do
  floor ← try_new_ms serving_floor
  ceiling ← try_new_ms committed_ceiling
  a ← Alloc.become_leader c.allocator floor ceiling epoch
  ok (record c { allocator = a; seq_allocator = Seq.become_leader c.seq_allocator epoch })

unfoldable pub seed_leases : List LeaseRecord → ℕ → ServingCore → ServingCore
seed_leases records now_ms c = record c { lease_table = seed records now_ms }

abbrev pub is_epoch : Epoch → Option Epoch → Bool
is_epoch e none = false
is_epoch e (some x) = same_epoch x e

-- The table, if this is still the leader of the epoch.
unfoldable pub lease_table_at : ServingCore → Epoch → Result CoreError LeaseTable
lease_table_at c epoch =
    if is_epoch epoch (current_epoch c) then ok c.lease_table else err CoreError.not_leader

unfoldable pub lease_projected_live_set :
    ServingCore
    → Option LeaseRecord
    → Option ℕ
    → Option ℕ
    → Epoch
    → ℕ
    → Result CoreError (List LeaseRecord)
unfolding lease_table_at
lease_projected_live_set c upsert supersedes removes epoch now_ms = do
  t ← lease_table_at c epoch
  ok (projected_live_set t upsert supersedes removes now_ms)

abbrev pub commit_removal : Option ℕ → ℕ → LeaseTable → LeaseTable
commit_removal none now_ms t = t
commit_removal (some id) now_ms t = commit_release t id now_ms

-- A record that replaces none and is not there yet is acquired; one that is there is renewed.
abbrev pub commit_upsert : Option LeaseRecord → Option ℕ → ℕ → LeaseTable → LeaseTable
commit_upsert none supersedes now_ms t = t
commit_upsert (some r) (some id) now_ms t = commit_acquire t r (some id) now_ms
commit_upsert (some r) none now_ms t = elim (prepare_release t r.lease_id) [
  | none ↦ commit_acquire t r none now_ms
  | some old ↦ commit_renew t r now_ms
]

unfoldable pub lease_commit :
    Option LeaseRecord
    → Option ℕ
    → Option ℕ
    → Epoch
    → ℕ
    → ServingCore
    → Result CoreError ServingCore
unfolding lease_table_at
lease_commit upsert supersedes removes epoch now_ms c = do
  t ← lease_table_at c epoch
  ok (record c {
    lease_table = commit_upsert upsert supersedes now_ms (commit_removal removes now_ms t);
  })

abbrev pub seq_validate : ServingCore → List ℕ → ℕ → Result CoreError SeqKey
seq_validate c key count = validate_request c.seq_allocator key count c.max_seq_count

unfoldable pub commit_extension :
    ℕ → Epoch → ServingCore → Result CoreError (CommitOutcome × ServingCore)
commit_extension actual epoch c = do
  p ← try_new_ms actual
  let (o, a) = try_commit_window_extension c.allocator p epoch in ok (o, record c { allocator = a })

unfoldable pub prepare_extension : ServingCore → ℕ → ℕ → Result CoreError (ℕ × Epoch)
prepare_extension c now_ms window_ahead_ms = do
  epoch ← ok_or (current_epoch c) CoreError.not_leader
  now ← try_new_ms now_ms
  requested ← try_prepare_window_extension c.allocator now window_ahead_ms
  ok (requested.get, epoch)

unfoldable pub prepare_lease_renewal : ServingCore → ℕ → ℕ → Result CoreError (ℕ × ℕ × Epoch)
prepare_lease_renewal c now_ms ttl_ms = do
  epoch ← ok_or (current_epoch c) CoreError.not_leader
  committed ← ok_or (committed_high_water c.allocator) CoreError.not_leader
  now ← try_new_ms now_ms
  requested ← try_prepare_lease_renewal c.allocator now ttl_ms
  ok (committed, requested.get, epoch)
