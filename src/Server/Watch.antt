-- ===== src/Server/Watch.antt =====
-- The leader watch: what a fence establishes before the server serves, and that every event keeps
-- the invariant.
use tsoracle.Prelude.{ℕ, none, List, [], ◌∷◌, Result, ok, err, saturating_add_u64}
use tsoracle.Epoch.{Epoch}
use tsoracle.CoreError.{CoreError}
use tsoracle.Lease.{LeaseRecord}
use tsoracle.Consensus.{ConsensusError, LeaderState, leases_unsupported}
use tsoracle.Server.Status.{
  PersistDisposition, classify, stepped_down, transient, permanent, beyond_range,
}
use tsoracle.Server.Core.{
  ServingCore, enter_fencing, publish_serving, seed_leases, seed_on_leadership_gained,
}
use tsoracle.Server.Action.{
  Server, Runtime, Action, modify, matching, continue, ◌>>=◌, ◌>>◌, on_core,
}
use tsoracle.Server.Fence.{
  ServerError, consensus, core, Fencing, or_consensus, awaiting, or_no_leases, set_core, seed_core,
  publish, serving_floor_of, Next, served, abandoned, retry, fatal, attempt, after_failure,
  after_attempt, fence_loop, on_event,
}
use tsoracle.Server.Invariant.{
  IsCore, KeepsCore, publish-IsCore, step_down-IsCore, publish_not_serving-IsCore,
}
use tsoracle.Server.Keeps.{Keeps, bind-Keeps, matching-Keeps}
use tsoracle.Server.Handlers.{IsQuiet}

module _ {D : Type 0} where
  publish-Keeps :
      (floor actual : ℕ) (e : Epoch) (rs : List LeaseRecord) (now : ℕ)
      → Keeps {D = D} (publish floor actual e rs now)
  unfolding publish seed_core
  publish-Keeps floor actual e rs now s v =
      go (seed_on_leadership_gained floor actual e s.core)
        (publish-IsCore floor actual now e rs s.core)
    where
      go :
          (r : Result CoreError ServingCore)
          → KeepsCore (λ c. publish_serving (seed_leases rs now c)) r
          → IsCore
              ((matching
                  (set_core {D = D} r)
                  (continue {E = ServerError} {A = Unit {0}} {B = Unit {0}}
                    λ _. modify (on_core (seed_leases rs now)) >> modify (on_core publish_serving))
                  s).1
                ).core
      go (ok c) h = h
      go (err x) h = v

  -- The waits for the gate, one for each attempt, keep the invariant too.
  abbrev pub QuietTurns : List ((Server D → Server D) × ℕ) → Type 0
  QuietTurns [] = Unit
  QuietTurns ((drain, now) ∷ turns) =
      ((s : Server D) → IsCore s.core → IsCore (drain s).core) × QuietTurns turns

  module _ (run : Runtime D) (q : IsQuiet run) (advance : ℕ) where
    attempt-Keeps :
        (drain : Server D → Server D) (now : ℕ) (e : Epoch)
        → ((s : Server D) → IsCore s.core → IsCore (drain s).core)
        → Keeps (attempt run advance drain now e)
    unfolding attempt
    attempt-Keeps drain now e kd s v =
        bind-Keeps (awaiting run.consensus.load_high_water) after_load
          (awaiting-Keeps run.consensus.load_high_water q.load_high_water) after_load-Keeps
          (drain s) (kd s v)
      where
        awaiting-Keeps :
            (call : Action (Server D) ConsensusError ℕ) → Keeps call → Keeps (awaiting {D = D} call)
        awaiting-Keeps call k s v = go (call s).0 (call s).1 (k s v)
          where
            go : (r : Result ConsensusError ℕ) → Keeps {D = D} (or_consensus {D = D} {A = ℕ} r)
            go (ok a) = λ s v. v
            go (err x) = λ s v. v

        records-Keeps :
            (r : Result ConsensusError (List LeaseRecord)) → Keeps {D = D} (or_no_leases r)
        records-Keeps (ok rs) = λ s v. v
        records-Keeps (err leases_unsupported) = λ s v. v
        records-Keeps (err x) = λ s v. v

        raise : ℕ → Fencing D ℕ
        raise prior = awaiting (
            run.consensus.persist_high_water
              (saturating_add_u64 (serving_floor_of prior now) advance) e)

        finish : ℕ → List LeaseRecord → ℕ → Fencing D (Unit {0})
        finish prior rs actual = publish (serving_floor_of prior now) actual e rs now

        after_load : ℕ → Fencing D (Unit {0})
        after_load prior = matching run.consensus.load_leases or_no_leases >>= λ rs.
            raise prior >>= finish prior rs

        after_load-Keeps : (prior : ℕ) → Keeps (after_load prior)
        after_load-Keeps prior =
            bind-Keeps (matching run.consensus.load_leases or_no_leases)
              (λ rs. raise prior >>= finish prior rs)
              (matching-Keeps run.consensus.load_leases or_no_leases q.load_leases records-Keeps)
              (λ rs.
                bind-Keeps (raise prior) (finish prior rs)
                  (awaiting-Keeps
                    (run.consensus.persist_high_water
                      (saturating_add_u64 (serving_floor_of prior now) advance) e)
                    (q.persist_high_water _ e))
                  (λ a. publish-Keeps (serving_floor_of prior now) a e rs now))

    after_attempt-Keeps :
        (r : Result ServerError (Unit {0})) (s : Server D)
        → IsCore s.core
        → IsCore (after_attempt r s).1.core
    unfolding after_attempt after_failure
    after_attempt-Keeps (ok u) s v = v
    after_attempt-Keeps (err (core x)) s v = v
    after_attempt-Keeps (err ServerError.watch_stream_closed) s v = v
    after_attempt-Keeps (err (consensus x)) s v = go (classify x)
      where
        go : (d : PersistDisposition) → IsCore (after_failure d s).1.core
        go (stepped_down f) = publish_not_serving-IsCore none none s.core v
        go (transient x) = v
        go (permanent x) = v
        go (beyond_range n) = v

    fence_loop-Keeps :
        (turns : List ((Server D → Server D) × ℕ)) (e : Epoch) (s : Server D)
        → QuietTurns turns
        → IsCore s.core
        → IsCore (fence_loop run advance turns e s).1.core
    unfolding fence_loop
    fence_loop-Keeps [] e s t v = v
    fence_loop-Keeps ((drain, now) ∷ turns) e s t v =
        go (after_attempt r s1).0 (after_attempt r s1).1 (λ s2 v. fence_loop-Keeps turns e s2 t.1 v)
          (after_attempt-Keeps r s1 (attempt-Keeps drain now e t.0 s v))
      where
        r : Result ServerError (Unit {0})
        r = (attempt run advance drain now e s).0

        s1 : Server D
        s1 = (attempt run advance drain now e s).1

        go :
            (n : Next) (s2 : Server D)
            → ((s2 : Server D) → IsCore s2.core → IsCore (fence_loop run advance turns e s2).1.core)
            → IsCore s2.core
            → IsCore
                (elim n as (λ k. Next × Server D) [
                  | retry ↦ fence_loop run advance turns e s2
                  | served ↦ (served, s2)
                  | abandoned ↦ (abandoned, s2)
                  | fatal x ↦ (fatal x, s2)
                ]).1.core
        go retry s2 again v = again s2 v
        go served s2 again v = v
        go abandoned s2 again v = v
        go (fatal x) s2 again v = v

    pub on_event-IsCore :
        (turns : List ((Server D → Server D) × ℕ)) (evt : LeaderState) (s : Server D)
        → QuietTurns turns
        → IsCore s.core
        → IsCore (on_event run advance turns evt s).1.core
    unfolding on_event enter_fencing
    on_event-IsCore turns (LeaderState.leader e) s t v =
        fence_loop-Keeps turns e (on_core enter_fencing s) t (step_down-IsCore none none s.core)
    on_event-IsCore turns (LeaderState.follower p e) s t v = step_down-IsCore p e s.core
    on_event-IsCore turns LeaderState.unknown s t v = step_down-IsCore none none s.core
