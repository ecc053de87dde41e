-- ===== src/Server/Invariant.antt =====
-- The serving core's invariant, through every method of it.
use tsoracle.Prelude.{
  ℕ, ◌≡◌, refl, true, false, Option, List, Result, ok, err, ◌>>=◌, ltb, Bool-cases, inl, inr, arith,
}
use tsoracle.Epoch.{Epoch}
use tsoracle.CoreError.{CoreError, PhysicalMs, InRange, try_new_ms}
use tsoracle.Timestamp.{physical_ms_max}
use tsoracle.Allocator.{is_leader, CommitOutcome}
use tsoracle.Allocator as Alloc
use tsoracle.Allocator.Invariant.{IsSound, IsValid, try_grant-IsValid, commit-IsValid}
use tsoracle.Seq as Seq
use tsoracle.Lease.{LeaseRecord, LeaseTable, seed}
use tsoracle.Peer.{PeerEndpoint}
use tsoracle.Server.Core.{
  ServingCore, is_serving, publish_serving, publish_not_serving, step_down, core_try_grant,
  seed_on_leadership_gained, seed_leases, lease_table_at, lease_commit, commit_extension,
  commit_upsert, commit_removal, is_epoch, current_epoch,
}

abbrev RangedResult : Result CoreError PhysicalMs → Type 0
RangedResult (ok p) = InRange p
RangedResult (err e) = Unit

try_new_ms-InRange : (n : ℕ) → RangedResult (try_new_ms n)
unfolding try_new_ms
try_new_ms-InRange n = ground arith

-- The allocator's state is sound, the sequence gate is open under exactly its epoch, and only a
-- leader serves.
pub record IsCore (c : ServingCore) : Type 0 where
  pub valid : IsValid c.allocator
  pub lockstep : Seq.epoch_of c.seq_allocator ≡ Alloc.epoch_of c.allocator
  pub led : is_serving c ≡ true → is_leader c.allocator ≡ true

pub step_down-IsCore :
    (p : Option PeerEndpoint) (e : Option Epoch) (c : ServingCore) → IsCore (step_down p e c)
unfolding step_down Seq.epoch_of Alloc.epoch_of Seq.step_down Alloc.step_down is_leader
step_down-IsCore p e c = record { valid = tt; lockstep = refl; led = λ h. cc }

pub publish_not_serving-IsCore :
    (p : Option PeerEndpoint) (e : Option Epoch) (c : ServingCore)
    → IsCore c
    → IsCore (publish_not_serving p e c)
unfolding publish_not_serving
publish_not_serving-IsCore p e c v = record {
  valid = v.valid;
  lockstep = v.lockstep;
  led = λ h. cc;
}

grant_keeps :
    (a : Alloc.Allocator) (now count : ℕ)
    → (Alloc.epoch_of (Alloc.try_grant a now count).1 ≡ Alloc.epoch_of a)
      × (is_leader (Alloc.try_grant a now count).1 ≡ is_leader a)
unfolding Alloc.try_grant Alloc.epoch_of is_leader
grant_keeps a now count = ground arith

pub core_try_grant-IsCore :
    (now count : ℕ) (c : ServingCore) → IsCore c → IsCore (core_try_grant now count c).1
unfolding core_try_grant
core_try_grant-IsCore now count c v = record {
  valid = try_grant-IsValid c.allocator now count v.valid;
  lockstep = ground (arith, grant_keeps c.allocator now count, v.lockstep);
  led = λ h. ground (arith, grant_keeps c.allocator now count, v.led h);
}

commit_keeps :
    (a : Alloc.Allocator) (p : PhysicalMs) (e : Epoch)
    → (Alloc.epoch_of (Alloc.try_commit_window_extension a p e).1 ≡ Alloc.epoch_of a)
      × (is_leader (Alloc.try_commit_window_extension a p e).1 ≡ is_leader a)
unfolding Alloc.try_commit_window_extension Alloc.epoch_of is_leader
commit_keeps a p e = ground arith

with_leases : (t : LeaseTable) (c : ServingCore) → IsCore c → IsCore (record c { lease_table = t })
with_leases t c v = record { valid = v.valid; lockstep = v.lockstep; led = v.led }

-- A method that may fail leaves an old core on an error.
abbrev pub KeepsCore : {E A : Type 0} → (A → ServingCore) → Result E A → Type 0
KeepsCore f (ok a) = IsCore (f a)
KeepsCore f (err e) = Unit

pub seed_leases-IsCore :
    (rs : List LeaseRecord) (now : ℕ) (c : ServingCore) → IsCore c → IsCore (seed_leases rs now c)
unfolding seed_leases
seed_leases-IsCore rs now c v = with_leases (seed rs now) c v

pub lease_commit-IsCore :
    (u : Option LeaseRecord) (s r : Option ℕ) (e : Epoch) (now : ℕ) (c : ServingCore)
    → IsCore c
    → KeepsCore (λ c. c) (lease_commit u s r e now c)
unfolding lease_commit lease_table_at
lease_commit-IsCore u s r e now c v = elim (Bool-cases (is_epoch e (current_epoch c))) [
  | inl same ↦
      rw same (with_leases (commit_upsert u s now (commit_removal r now c.lease_table)) c v)
  | inr other ↦ rw other tt
]

pub commit_extension-IsCore :
    (actual : ℕ) (e : Epoch) (c : ServingCore)
    → IsCore c
    → KeepsCore {A = CommitOutcome × ServingCore} (λ p. p.1) (commit_extension actual e c)
unfolding commit_extension
commit_extension-IsCore actual e c v = go (try_new_ms actual) (try_new_ms-InRange actual)
  where
    go :
        (r : Result CoreError PhysicalMs)
        → RangedResult r
        → KeepsCore {A = CommitOutcome × ServingCore}
            (λ p. p.1)
            (r >>= λ p.
              let (o, a) = Alloc.try_commit_window_extension c.allocator p e in
              ok (o, record c { allocator = a }))
    go (err x) h = tt
    go (ok p) h = record {
      valid = commit-IsValid c.allocator p e h v.valid;
      lockstep = ground (arith, commit_keeps c.allocator p e, v.lockstep);
      led = λ k. ground (arith, commit_keeps c.allocator p e, v.led k);
    }

-- The three steps that end a fence: the core serves, as the leader of the epoch.
pub publish-IsCore :
    (floor actual now : ℕ) (e : Epoch) (rs : List LeaseRecord) (c : ServingCore)
    → KeepsCore
        (λ c. publish_serving (seed_leases rs now c))
        (seed_on_leadership_gained floor actual e c)
unfolding publish_serving seed_leases seed_on_leadership_gained Alloc.become_leader try_new_ms
    Seq.become_leader Seq.epoch_of Alloc.epoch_of is_leader
publish-IsCore floor actual now e rs c = elim (Bool-cases (ltb physical_ms_max floor)) [
  | inl high ↦ rw high tt
  | inr fits ↦ elim (Bool-cases (ltb physical_ms_max actual)) [
    | inl high ↦ rw (fits, high) tt
    | inr in_range ↦ elim (Bool-cases (ltb actual floor)) [
      | inl below ↦ rw (fits, in_range, below) tt
      | inr above ↦
          rw (fits, in_range, above)
            (record {
              valid = sound floor actual e fits in_range above;
              lockstep = refl;
              led = λ k. refl;
            })
    ]
  ]
]
  where
    sound :
        (floor actual : ℕ) (e : Epoch)
        → ltb physical_ms_max floor ≡ false
        → ltb physical_ms_max actual ≡ false
        → ltb actual floor ≡ false
        → IsSound (record {
          epoch = e;
          committed_high_water = actual;
          next_physical_ms = floor;
          next_logical = 0;
        })
    sound floor actual e f a g = ground arith
