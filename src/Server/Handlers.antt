-- ===== src/Server/Handlers.antt =====
-- Every handler and every leadership event keeps the serving core's invariant, if the waits do.
use tsoracle.Prelude.{ℕ, ◌==◌, ◌%◌, ◌^◌, Bool, true, false, if◌then◌else◌, List, Result, ok, err}
use tsoracle.Epoch.{Epoch}
use tsoracle.CoreError.{CoreError, window_exhausted}
use tsoracle.Allocator.{WindowGrant, would_grant}
use tsoracle.Seq.{SeqKey}
use tsoracle.Lease.{LeaseRecord}
use tsoracle.Consensus.{ConsensusError}
use tsoracle.Server.Status.{Status, status, invalid_argument, zero_count, of_window, classify}
use tsoracle.Server.Core.{prepare_extension}
use tsoracle.Server.Action.{Server, Runtime, pure, matching, ◌>>=◌, ◌>>◌, throw_if, ensure_serving}
use tsoracle.Server.Window.{
  GetTsResponse, response, on_persist_error, on_core_error, commit_actual, try_grant_now,
  persist_bound, extend, extend_window, second_attempt, first_attempt, get_ts,
}
use tsoracle.Server.Invariant.{IsCore}
use tsoracle.Server.Keeps.{
  Keeps, bind-Keeps, on_persist_error-Keeps, on_core_error-Keeps, ensure_serving-Keeps,
  commit_actual-Keeps, try_grant_now-Keeps,
}

-- What other tasks do during a wait keeps the invariant.
pub record IsQuiet {D : Type 0} (run : Runtime D) : Type 0 where
  pub slot : (s : Server D) → IsCore s.core → IsCore (run.extension_slot s).core
  pub gate : (s : Server D) → IsCore s.core → IsCore (run.drain_barrier s).core
  pub load_high_water : Keeps run.consensus.load_high_water
  pub persist_high_water : (n : ℕ) (e : Epoch) → Keeps (run.consensus.persist_high_water n e)
  pub advance_dense : (k : SeqKey) (c : ℕ) (e : Epoch) → Keeps (run.consensus.advance_dense k c e)
  pub advance_dense_batch :
      (ks : List (SeqKey × ℕ)) (e : Epoch) → Keeps (run.consensus.advance_dense_batch ks e)
  pub load_leases : Keeps run.consensus.load_leases
  pub persist_leases :
      (rs : List LeaseRecord) (e : Epoch) → Keeps (run.consensus.persist_leases rs e)

module _ {D : Type 0} (run : Runtime D) (q : IsQuiet run) where
  pub persist_bound-Keeps : (n : ℕ) (e : Epoch) → Keeps (persist_bound run n e)
  unfolding persist_bound
  persist_bound-Keeps n e s v =
      answer (run.consensus.persist_high_water n e s).0 (run.consensus.persist_high_water n e s).1
        (q.persist_high_water n e s v)
    where
      answer :
          (r : Result ConsensusError ℕ)
          → Keeps {D = D} {E = Status} {A = ℕ}
              (elim r [ ok a ↦ pure a | err x ↦ on_persist_error of_window (classify x) ])
      answer (ok a) = λ s v. v
      answer (err x) = on_persist_error-Keeps ℕ of_window (classify x)

  prepared-Keeps :
      (r : Result CoreError (ℕ × Epoch))
      → Keeps {D = D} {E = Status} {A = Unit {0}} (elim r [
        | ok (requested, epoch) ↦ persist_bound run requested epoch >>= λ actual.
            commit_actual actual epoch >>= λ _. pure tt
        | err e ↦ on_core_error e
      ])
  prepared-Keeps (ok (n, e)) =
      bind-Keeps (persist_bound run n e) (λ a. commit_actual a e >>= λ _. pure tt)
        (persist_bound-Keeps n e)
        (λ a. bind-Keeps (commit_actual a e) (λ _. pure tt) (commit_actual-Keeps a e) (λ o s v. v))
  prepared-Keeps (err e) = on_core_error-Keeps (Unit {0}) e

  extend-Keeps : (now : ℕ) → Keeps (extend run now)
  unfolding extend
  extend-Keeps now s v =
      let s' = run.drain_barrier s in
      prepared-Keeps (prepare_extension s'.core now (s'.core.window_ahead_ms % 2 ^ 64)) s'
        (q.gate s v)

  extend_window-Keeps : (now count : ℕ) → Keeps (extend_window run now count)
  unfolding extend_window
  extend_window-Keeps now count s v =
      let s' = run.extension_slot s in go (would_grant s'.core.allocator now count) s' (q.slot s v)
    where
      go :
          (b : Bool)
          → Keeps {D = D} {E = Status} {A = Unit {0}} (if b then pure tt else extend run now)
      go true s v = v
      go false s v = extend-Keeps now s v

  second_attempt-Keeps : (now count : ℕ) → Keeps (second_attempt run now count)
  unfolding second_attempt
  second_attempt-Keeps now count s v =
      go (try_grant_now now count s).0 (try_grant_now now count s).1
        (try_grant_now-Keeps now count s v)
    where
      go :
          (r : Result CoreError WindowGrant)
          → Keeps {D = D} {E = Status} {A = GetTsResponse}
              (elim r [ ok g ↦ pure (response g) | err e ↦ on_core_error e ])
      go (ok g) = λ s v. v
      go (err e) = on_core_error-Keeps GetTsResponse e

  first_attempt-Keeps :
      (now count : ℕ) (r : Result CoreError WindowGrant) → Keeps (first_attempt run now count r)
  unfolding first_attempt
  first_attempt-Keeps now count (ok g) = λ s v. v
  first_attempt-Keeps now count (err window_exhausted) =
      bind-Keeps (extend_window run now count) (λ _. second_attempt run now count)
        (extend_window-Keeps now count) (λ _. second_attempt-Keeps now count)
  first_attempt-Keeps now count (err e) = on_core_error-Keeps GetTsResponse e

  pub get_ts-Keeps : (now count : ℕ) → Keeps (get_ts run now count)
  unfolding get_ts
  get_ts-Keeps now count =
      bind-Keeps (throw_if (count == 0) (status invalid_argument zero_count))
        (λ _. ensure_serving >> matching (try_grant_now now count) (first_attempt run now count))
        (λ s v. v)
        (λ _.
          bind-Keeps ensure_serving
            (λ _. matching (try_grant_now now count) (first_attempt run now count))
            ensure_serving-Keeps
            (λ _ s v.
              first_attempt-Keeps now count (try_grant_now now count s).0
                (try_grant_now now count s).1 (try_grant_now-Keeps now count s v)))
