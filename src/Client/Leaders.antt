-- ===== src/Client/Leaders.antt =====
-- crates/tsoracle-client/src/channel_pool.rs: the pool's cached leader, and the endpoints that a pass of
-- a request starts with. An instant is a number of milliseconds; the channels are not modelled.
pub mod Floor
pub mod Rotation
mod Tests
use tsoracle.Prelude.{
  ℕ, zero, suc, ◌+◌, ◌-◌, ◌%◌, max, Bool, true, false, not, ltb, leb, if◌then◌else◌, Option, none,
  some, List, [], ◌∷◌, ◌++◌, length, u64_max,
}
use tsoracle.BTreeMap.{bytes_ord, same}
use tsoracle.Client.{Endpoint}

pub record CachedLeader : Type 0 where
  pub endpoint : Endpoint
  pub epoch : Option ℕ
  pub last_used : ℕ

pub data SeatSource : Type 0 where
  confirmed hinted : SeatSource

-- Of `ChannelPool`, what the choice of endpoints depends on.
pub record ChannelPool : Type 0 where
  pub configured : List Endpoint
  pub rotation : ℕ
  pub leader : Option CachedLeader
  pub leader_ttl : ℕ

unfoldable pub merge_epoch_forward : Option ℕ → Option ℕ → Option ℕ
merge_epoch_forward (some cached) (some incoming) = some (max cached incoming)
merge_epoch_forward (some cached) none = some cached
merge_epoch_forward none incoming = incoming

-- `last_used.elapsed() < leader_ttl`
unfoldable pub is_fresh : (now leader_ttl : ℕ) → CachedLeader → Bool
is_fresh now leader_ttl cached = ltb (now - cached.last_used) leader_ttl

unfoldable pub fresh_leader : (now : ℕ) → ChannelPool → Option CachedLeader
unfolding is_fresh
fresh_leader now pool = elim pool.leader [
  | none ↦ none
  | some cached ↦ if is_fresh now pool.leader_ttl cached then some cached else none
]

abbrev pub endpoint_of : Option CachedLeader → Option Endpoint
endpoint_of none = none
endpoint_of (some cached) = some cached.endpoint

unfoldable pub cached_leader : (now : ℕ) → ChannelPool → Option Endpoint
unfolding fresh_leader
cached_leader now pool = endpoint_of (fresh_leader now pool)

unfoldable pub is_configured : Endpoint → List Endpoint → Bool
is_configured e [] = false
is_configured e (c ∷ cs) = if same c e then true else is_configured e cs

-- Whether a fresh leader gives way to another endpoint.
unfoldable pub accepts : (cached incoming : Option ℕ) → SeatSource → (configured : Bool) → Bool
accepts (some cached) (some incoming) source configured = leb cached incoming
accepts (some cached) none hinted configured = configured
accepts (some cached) none confirmed configured = false
accepts none incoming hinted configured = true
accepts none incoming confirmed configured = false

module _ (now : ℕ) (endpoint : Endpoint) (epoch : Option ℕ) where
  abbrev pub seated : CachedLeader
  seated = record { endpoint = endpoint; epoch = epoch; last_used = now }

  abbrev pub refreshed : CachedLeader → CachedLeader
  refreshed cached = record {
    endpoint = cached.endpoint;
    epoch = merge_epoch_forward cached.epoch epoch;
    last_used = now;
  }

  -- The cache after a write, and whether it was written.
  unfoldable pub reseat :
      SeatSource → ChannelPool → Option CachedLeader → Bool × Option CachedLeader
  unfolding merge_epoch_forward is_fresh accepts is_configured
  reseat source pool none = (true, some seated)
  reseat source pool (some cached) =
      if same cached.endpoint endpoint
      then (true, some (refreshed cached))
      else if is_fresh now pool.leader_ttl cached
      then (if accepts cached.epoch epoch source (is_configured endpoint pool.configured)
          then (true, some seated)
          else (false, some cached))
      else (true, some seated)

  unfoldable pub seat_leader : SeatSource → ChannelPool → Bool × ChannelPool
  unfolding reseat
  seat_leader source pool =
      let result = reseat source pool pool.leader in (result.0, record pool { leader = result.1 })

unfoldable pub record_success : (now : ℕ) → Endpoint → (epoch : ℕ) → ChannelPool → ChannelPool
unfolding seat_leader
record_success now endpoint epoch pool = (seat_leader now endpoint (some epoch) confirmed pool).1

unfoldable pub compare_and_set_leader :
    (now : ℕ) → Endpoint → Option ℕ → ChannelPool → Bool × ChannelPool
unfolding seat_leader
compare_and_set_leader now endpoint epoch pool = seat_leader now endpoint epoch hinted pool

-- `configured[offset..]` and then `configured[..offset]`
abbrev pub split : ℕ → List Endpoint → List Endpoint × List Endpoint
split zero es = ([], es)
split (suc n) [] = ([], [])
split (suc n) (e ∷ es) = let (before, after) = split n es in (e ∷ before, after)

unfoldable pub rotated : ℕ → List Endpoint → List Endpoint
rotated offset es = let (before, after) = split offset es in after ++ before

abbrev pub is_leader : Option Endpoint → Endpoint → Bool
is_leader none e = false
is_leader (some leader) e = same e leader

unfoldable pub without : Option Endpoint → List Endpoint → List Endpoint
without leader [] = []
without leader (e ∷ es) =
    let rest = without leader es in if is_leader leader e then rest else e ∷ rest

abbrev pub first : Option Endpoint → List Endpoint
first none = []
first (some leader) = leader ∷ []

-- The endpoints, and the pool with its cursor, a word of 64 bits, moved on.
unfoldable pub iter_round_robin : (now : ℕ) → ChannelPool → List Endpoint × ChannelPool
unfolding cached_leader rotated without
iter_round_robin now pool =
    let leader = cached_leader now pool in
    elim pool.configured [
      | [] ↦ (first leader, pool)
      | c ∷ cs ↦ (
        first leader ++ without leader (rotated (pool.rotation % length (c ∷ cs)) (c ∷ cs)),
        record pool { rotation = (pool.rotation + 1) % (u64_max + 1) },
      )
    ]
