-- ===== src/Server/Failover.antt =====
-- A fence that gets through: where the new leader's window starts.
use tsoracle.Prelude.{ℕ, ◌≤◌, ◌<◌, ◌≡◌, refl, true, inl, List, ok, arith, saturating_add_u64}
use tsoracle.Timestamp.{physical_ms_max}
use tsoracle.Epoch.{Epoch}
use tsoracle.CoreError.{try_new_ms}
use tsoracle.Allocator.{Leader, leader}
use tsoracle.Allocator as Alloc
use tsoracle.Allocator.Invariant.{IsSound}
use tsoracle.Seq.{SeqAllocator}
use tsoracle.Seq as Seq
use tsoracle.Lease.{LeaseRecord, seed}
use tsoracle.Server.Core.{
  ServingCore, serving, publish_serving, seed_leases, seed_on_leadership_gained, is_serving,
}
use tsoracle.Server.Action.{Server, Runtime}
use tsoracle.Server.Fence.{seed_core, publish, serving_floor_of, attempt}

-- The leader that a fence seeds.
abbrev pub fenced_leader : Epoch → ℕ → ℕ → Leader
fenced_leader e floor actual = record {
  epoch = e;
  committed_high_water = actual;
  next_physical_ms = floor;
  next_logical = 0;
}

-- The core that a fence publishes.
abbrev pub published : Epoch → ℕ → ℕ → List LeaseRecord → ℕ → ServingCore → ServingCore
published e floor actual rs now c = record c {
  allocator = leader (fenced_leader e floor actual);
  seq_allocator = SeqAllocator.leader e;
  lease_table = seed rs now;
  state = serving;
}

seed_lem :
    (floor actual : ℕ) (e : Epoch) (c : ServingCore)
    → floor ≤ actual
    → actual ≤ physical_ms_max
    → seed_on_leadership_gained floor actual e c
      ≡ ok (record c {
        allocator = leader (fenced_leader e floor actual);
        seq_allocator = SeqAllocator.leader e;
      })
unfolding seed_on_leadership_gained try_new_ms Alloc.become_leader Seq.become_leader
seed_lem floor actual e c hf hm = ground arith

publish_lem :
    {D : Type 0} (floor actual now : ℕ) (e : Epoch) (rs : List LeaseRecord) (s : Server D)
    → floor ≤ actual
    → actual ≤ physical_ms_max
    → publish floor actual e rs now s
      ≡ (ok tt, record s { core = published e floor actual rs now s.core })
unfolding publish seed_core seed_leases publish_serving
publish_lem floor actual now e rs s hf hm = rw (seed_lem floor actual e s.core hf hm) refl

module _ {D : Type 0} (run : Runtime D) (advance : ℕ) where
  -- If the backend reports the high-water `prior` and the leases `rs`, and grants at least the bound
  -- that is asked for, within the packed field, an attempt of the fence succeeds: the server then
  -- serves as the leader of the epoch with a sound window whose first millisecond is past `prior` and
  -- not behind the clock, and with the leases of `rs` that have not expired.
  pub attempt_lem :
      (drain : Server D → Server D) (now prior actual : ℕ) (e : Epoch) (rs : List LeaseRecord)
      (s s1 s2 s3 : Server D)
      → run.consensus.load_high_water (drain s) ≡ (ok prior, s1)
      → run.consensus.load_leases s1 ≡ (ok rs, s2)
      → run.consensus.persist_high_water
          (saturating_add_u64 (serving_floor_of prior now) advance)
          e
          s2
        ≡ (ok actual, s3)
      → saturating_add_u64 (serving_floor_of prior now) advance ≤ actual
      → actual ≤ physical_ms_max
      → let r = attempt run advance drain now e s in
        (r.0 ≡ ok tt)
        × (is_serving r.1.core ≡ true)
        × (r.1.core.allocator ≡ leader (fenced_leader e (serving_floor_of prior now) actual))
        × (r.1.core.lease_table ≡ seed rs now)
        × (prior < serving_floor_of prior now)
        × (now ≤ serving_floor_of prior now)
        × IsSound (fenced_leader e (serving_floor_of prior now) actual)
  unfolding attempt
  attempt_lem drain now prior actual e rs s s1 s2 s3 hl hr hp ha hm =
      rw (hl, hr, hp, publish_lem (serving_floor_of prior now) actual now e rs s3 (ground arith) hm)
        (
          refl,
          refl,
          refl,
          refl,
          ground arith,
          ground arith,
          record { bounded = hm; packable = omega arith; within = inl (ground arith) },
        )
