-- ===== src/Client/Leaders/Floor.antt =====
-- A late or stale write of the leader cache does not bring back an earlier leader.
use tsoracle.Prelude.{
  ℕ, ◌+◌, ◌≤◌, ◌<◌, ◌≡◌, ◌⊎◌, inl, inr, refl, true, false, Option, none, some, List, [], ◌∷◌, leb,
  arith, All, Bool-cases,
}
use tsoracle.BTreeMap.{bytes_ord, same}
use tsoracle.Client.{Endpoint}
use tsoracle.Client.Leaders.{
  CachedLeader, SeatSource, confirmed, hinted, ChannelPool, merge_epoch_forward, is_fresh,
  is_configured, accepts, reseat, seat_leader, record_success,
}

-- A write of the cache: a request that succeeded, or a hint that a peer gave.
pub record Seat : Type 0 where
  pub now : ℕ
  pub endpoint : Endpoint
  pub epoch : Option ℕ
  pub source : SeatSource

unfoldable pub run : List Seat → ChannelPool → ChannelPool
run [] pool = pool
run (s ∷ ss) pool = run ss (seat_leader s.now s.endpoint s.epoch s.source pool).1

abbrev AtLeast : ℕ → Option ℕ → Type 0
AtLeast floor none = ⊥
AtLeast floor (some epoch) = floor ≤ epoch

abbrev pub Outranked : Option ℕ → ℕ → Type 0
Outranked none epoch = ⊥
Outranked (some cached) epoch = cached ≤ epoch

-- The cached leader has an epoch, not below `floor`, and was used at `since` or later.
abbrev pub Holds : (floor since : ℕ) → Option CachedLeader → Type 0
Holds floor since none = ⊥
Holds floor since (some l) = AtLeast floor l.epoch × (since ≤ l.last_used)

-- Not a hint without an epoch to a configured endpoint.
abbrev Ranked : (configured : List Endpoint) → Endpoint → Option ℕ → SeatSource → Type 0
Ranked configured e none hinted = is_configured e configured ≡ false
Ranked configured e epoch source = Unit

-- A write while what was used at `since` is fresh.
abbrev pub IsTimely : (configured : List Endpoint) (leader_ttl since : ℕ) → Seat → Type 0
IsTimely configured leader_ttl since s =
    (since ≤ s.now) × (s.now < since + leader_ttl) × Ranked configured s.endpoint s.epoch s.source

merge-AtLeast :
    (floor : ℕ) (cached incoming : Option ℕ)
    → AtLeast floor cached
    → AtLeast floor (merge_epoch_forward cached incoming)
unfolding merge_epoch_forward
merge-AtLeast floor none incoming h = absurd h
merge-AtLeast floor (some c) none h = h
merge-AtLeast floor (some c) (some i) h = omega (arith, h)

accepts-AtLeast :
    (floor : ℕ) (configured : List Endpoint) (e : Endpoint) (cached incoming : Option ℕ)
    (source : SeatSource)
    → AtLeast floor cached
    → Ranked configured e incoming source
    → accepts cached incoming source (is_configured e configured) ≡ true
    → AtLeast floor incoming
unfolding accepts
accepts-AtLeast floor configured e none incoming source h r a = absurd h
accepts-AtLeast floor configured e (some c) (some i) source h r a = ground arith
accepts-AtLeast floor configured e (some c) none hinted h r a = cc
accepts-AtLeast floor configured e (some c) none confirmed h r a = cc

reseat-Holds :
    (floor since : ℕ) (s : Seat) (pool : ChannelPool) (leader : Option CachedLeader)
    → Holds floor since leader
    → IsTimely pool.configured pool.leader_ttl since s
    → Holds floor since (reseat s.now s.endpoint s.epoch s.source pool leader).1
unfolding reseat is_fresh
reseat-Holds floor since s pool none h t = absurd h
reseat-Holds floor since s pool (some l) h t = elim (Bool-cases (same l.endpoint s.endpoint)) [
  | inl here ↦ rw here (merge-AtLeast floor l.epoch s.epoch h.0, t.0)
  | inr other ↦
      elim (Bool-cases
        (accepts l.epoch s.epoch s.source (is_configured s.endpoint pool.configured))) [
          | inl taken ↦
              rw (other, fresh, taken)
                (
                  accepts-AtLeast floor pool.configured s.endpoint l.epoch s.epoch s.source h.0 t.2
                      taken,
                  t.0,
                )
          | inr kept ↦ rw (other, fresh, kept) h
        ]
]
  where
    fresh : is_fresh s.now pool.leader_ttl l ≡ true
    fresh = ground (arith, t, h)

-- Let the cached leader have an epoch that is not below `floor`, and let every write of the cache
-- come before the leader could expire. Then after any sequence of writes, of requests that
-- succeeded late and of hints that name any leader, there is a cached leader whose epoch is known
-- and not below `floor`, if no hint without an epoch names a configured endpoint.
pub run-Holds :
    (floor since : ℕ) (ss : List Seat) (pool : ChannelPool)
    → Holds floor since pool.leader
    → All (IsTimely pool.configured pool.leader_ttl since) ss
    → Holds floor since (run ss pool).leader
unfolding run seat_leader
run-Holds floor since [] pool h t = h
run-Holds floor since (s ∷ ss) pool h (t, ts) =
    run-Holds floor since ss (seat_leader s.now s.endpoint s.epoch s.source pool).1
      (reseat-Holds floor since s pool pool.leader h t) ts

-- A request that succeeded takes a fresh leader's place only if it proves that it outranks it: the
-- cache stays as it was, or the fresh leader has an epoch and that of the request is not below it.
pub record_success-Outranks :
    (now epoch : ℕ) (endpoint : Endpoint) (pool : ChannelPool) (l : CachedLeader)
    → pool.leader ≡ some l
    → is_fresh now pool.leader_ttl l ≡ true
    → same l.endpoint endpoint ≡ false
    → ((record_success now endpoint epoch pool).leader ≡ some l) ⊎ Outranked l.epoch epoch
unfolding record_success seat_leader reseat accepts
record_success-Outranks now epoch endpoint pool l held fresh other = rw held (outranks l.epoch refl)
  where
    outranks :
        (e : Option ℕ)
        → l.epoch ≡ e
        → ((reseat now endpoint (some epoch) confirmed pool (some l)).1 ≡ some l)
          ⊎ Outranked e epoch
    outranks none h = inl (simp (other, fresh, h))
    outranks (some c) h = elim (Bool-cases (leb c epoch)) [
      | inl above ↦ inr (ground (arith, above))
      | inr below ↦ inl (simp (other, fresh, h, below))
    ]
