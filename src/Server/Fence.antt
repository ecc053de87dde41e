-- ===== src/Server/Fence.antt =====
-- crates/tsoracle-server/src/fence.rs: the leader watch. A gained leadership fences the core, raises
-- the backend's high-water past everything issued before, and only then serves.
use tsoracle.Prelude.{ℕ, max, none, List, [], ◌∷◌, Result, ok, err, saturating_add_u64}
use tsoracle.Epoch.{Epoch}
use tsoracle.CoreError.{CoreError}
use tsoracle.Lease.{LeaseRecord}
use tsoracle.Consensus.{
  ConsensusError, leases_unsupported, permanent_driver, advance_out_of_range, LeaderState, leader,
  follower, unknown,
}
use tsoracle.Server.Status.{
  PersistDisposition, stepped_down, transient, permanent, beyond_range, classify,
}
use tsoracle.Server.Core.{
  ServingCore, enter_fencing, step_down, publish_serving, publish_not_serving,
  seed_on_leadership_gained, seed_leases,
}
use tsoracle.Server.Action.{
  Server, Runtime, Action, pure, throw, modify, matching, ◌>>=◌, ◌>>◌, on_core,
}

-- `ServerError`, as far as the watch returns it
pub data ServerError : Type 0 where
  consensus : (error : ConsensusError) → ServerError
  core : (error : CoreError) → ServerError
  watch_stream_closed : ServerError

abbrev pub Fencing : Type 0 → Type 0 → Type 0
Fencing D A = Action (Server D) ServerError A

abbrev pub or_consensus : {D A : Type 0} → Result ConsensusError A → Fencing D A
or_consensus (ok a) = pure a
or_consensus (err e) = throw (consensus e)

-- `call.await?`
abbrev pub awaiting : {D A : Type 0} → (Server D → Result ConsensusError A × Server D) → Fencing D A
awaiting call = matching call or_consensus

abbrev pub serving_floor_of : ℕ → ℕ → ℕ
serving_floor_of prior_max now_ms = max (saturating_add_u64 prior_max 1) now_ms

-- What the watch does next after an attempt.
pub data Next : Type 0 where
  served abandoned retry : Next
  fatal : (error : ServerError) → Next

module _ {D : Type 0} where
  -- A backend without leases has none.
  abbrev pub or_no_leases : Result ConsensusError (List LeaseRecord) → Fencing D (List LeaseRecord)
  or_no_leases (ok records) = pure records
  or_no_leases (err leases_unsupported) = pure []
  or_no_leases (err e) = throw (consensus e)

  abbrev pub set_core : Result CoreError ServingCore → Fencing D (Unit {0})
  set_core (ok c) s = (ok tt, record s { core = c })
  set_core (err e) s = (err (core e), s)

  unfoldable pub seed_core : ℕ → ℕ → Epoch → Fencing D (Unit {0})
  seed_core serving_floor actual epoch s =
      set_core (seed_on_leadership_gained serving_floor actual epoch s.core) s

  -- The last three steps, in one: the fence holds the gate, so no extension runs between them.
  unfoldable pub publish : ℕ → ℕ → Epoch → List LeaseRecord → ℕ → Fencing D (Unit {0})
  unfolding seed_core
  publish serving_floor actual epoch records now_ms = do
    seed_core serving_floor actual epoch
    modify (on_core (seed_leases records now_ms))
    modify (on_core publish_serving)

  unfoldable pub after_failure : PersistDisposition → Server D → Next × Server D
  after_failure (stepped_down fenced_by) s = (abandoned, on_core (publish_not_serving none none) s)
  after_failure (transient source) s = (retry, s)
  after_failure (permanent source) s = (fatal (consensus (permanent_driver source)), s)
  after_failure (beyond_range at_least) s = (fatal (consensus (advance_out_of_range at_least)), s)

  unfoldable pub after_attempt : Result ServerError (Unit {0}) → Server D → Next × Server D
  unfolding after_failure
  after_attempt (ok u) s = (served, s)
  after_attempt (err (consensus e)) s = after_failure (classify e) s
  after_attempt (err e) s = (fatal e, s)

  module _ (run : Runtime D) (failover_advance_ms : ℕ) where
    -- One attempt; `drain` is the wait for the gate.
    unfoldable pub attempt : (Server D → Server D) → ℕ → Epoch → Fencing D (Unit {0})
    unfolding publish
    attempt drain now_ms epoch = do
      modify drain
      prior_max ← awaiting run.consensus.load_high_water
      records ← matching run.consensus.load_leases or_no_leases
      actual ← awaiting (
          run.consensus.persist_high_water
            (saturating_add_u64 (serving_floor_of prior_max now_ms) failover_advance_ms) epoch)
      publish (serving_floor_of prior_max now_ms) actual epoch records now_ms

    -- The attempts, one for each clock reading and wait that a backoff leaves; with none left the
    -- next leadership event supersedes the fence.
    unfoldable pub fence_loop :
        List ((Server D → Server D) × ℕ) → Epoch → Server D → Next × Server D
    unfolding attempt after_attempt
    fence_loop [] epoch s = (retry, s)
    fence_loop ((drain, now_ms) ∷ turns) epoch s =
        let (r, s1) = attempt drain now_ms epoch s in
        let (n, s2) = after_attempt r s1 in
        elim n [
          | retry ↦ fence_loop turns epoch s2
          | served ↦ (served, s2)
          | abandoned ↦ (abandoned, s2)
          | fatal e ↦ (fatal e, s2)
        ]

    -- One leadership event.
    unfoldable pub on_event :
        List ((Server D → Server D) × ℕ) → LeaderState → Server D → Next × Server D
    unfolding fence_loop
    on_event turns (leader epoch) s = fence_loop turns epoch (on_core enter_fencing s)
    on_event turns (follower leader_endpoint leader_epoch) s =
        (abandoned, on_core (step_down leader_endpoint leader_epoch) s)
    on_event turns unknown s = (abandoned, on_core (step_down none none) s)
