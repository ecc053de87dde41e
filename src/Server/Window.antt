-- ===== src/Server/Window.antt =====
-- crates/tsoracle-server/src/service.rs: `get_ts` and the extension of the window behind it,
-- `get_current_max_safe` and `get_safe_frontier`.
use tsoracle.Prelude.{ℕ, ◌==◌, ◌%◌, ◌^◌, if◌then◌else◌, Option, none, some, Result, ok, err}
use tsoracle.Epoch.{Epoch, epoch_zero, to_wire}
use tsoracle.CoreError.{CoreError, window_exhausted}
use tsoracle.Allocator.{WindowGrant, CommitOutcome, would_grant}
use tsoracle.Server.Status.{
  status, Context, of_window, invalid_argument, internal, unavailable, zero_count, persist_failed,
  persist_out_of_range, core_status, PersistDisposition, stepped_down, transient, permanent,
  beyond_range, classify,
}
use tsoracle.Server.Core.{
  core_try_grant, prepare_extension, commit_extension, step_down, current_epoch,
  current_max_safe_physical_ms, safe_frontier_physical_ms,
}
use tsoracle.Server.Action.{
  Server, Runtime, Action, Handler, pure, throw, gets, modify, matching, ◌>>=◌, ◌>>◌, throw_if,
  on_core, redirect, ensure_serving,
}

pub record GetTsResponse : Type 0 where
  pub physical_ms : ℕ
  pub logical_start : ℕ
  pub count : ℕ
  pub epoch : ℕ × ℕ

abbrev pub response : WindowGrant → GetTsResponse
response g = record {
  physical_ms = g.physical_ms;
  logical_start = g.logical_start;
  count = g.count;
  epoch = to_wire g.epoch;
}

-- `current_epoch().unwrap_or(Epoch::ZERO)`
abbrev epoch_or_zero : Option Epoch → Epoch
epoch_or_zero none = epoch_zero
epoch_or_zero (some e) = e

-- The answer to a failed persist: on a loss of leadership the core steps down first. `extend_window`
-- and `persist_error_status` match alike.
unfoldable pub on_persist_error : {D A : Type 0} → Context → PersistDisposition → Handler D A
on_persist_error context (stepped_down fenced_by) = do
  modify (on_core (step_down none fenced_by))
  redirect
on_persist_error context (transient source) =
    throw (status unavailable (persist_failed context source))
on_persist_error context (permanent source) =
    throw (status internal (persist_failed context source))
on_persist_error context (beyond_range at_least) =
    throw (status internal (persist_out_of_range context at_least))

-- `Err(CoreError::NotLeader) => redirect, Err(other) => core_status(other)`
unfoldable pub on_core_error : {D A : Type 0} → CoreError → Handler D A
on_core_error CoreError.not_leader = redirect
on_core_error e = throw (core_status e)

module _ {D : Type 0} where
  -- The commit of a persisted bound, as the step of the core that it is.
  unfoldable pub commit_actual : ℕ → Epoch → Handler D CommitOutcome
  commit_actual actual epoch s = elim (commit_extension actual epoch s.core) [
    | ok (outcome, c) ↦ (ok outcome, record s { core = c })
    | err e ↦ (err (core_status e), s)
  ]

  unfoldable pub try_grant_now : ℕ → ℕ → Action (Server D) CoreError WindowGrant
  try_grant_now now_ms count s =
      let (r, c) = core_try_grant now_ms count s.core in (r, record s { core = c })

  module _ (run : Runtime D) where
    unfoldable pub persist_bound : ℕ → Epoch → Handler D ℕ
    unfolding on_persist_error
    persist_bound requested epoch =
        matching (run.consensus.persist_high_water requested epoch)
          λ r. elim r [ ok actual ↦ pure actual | err e ↦ on_persist_error of_window (classify e) ]

    -- What follows when the slot is held and the window is still too small.
    unfoldable pub extend : ℕ → Handler D (Unit {0})
    unfolding on_core_error commit_actual persist_bound
    extend now_ms = do
      modify run.drain_barrier
      prepared ← gets λ s. prepare_extension s.core now_ms (s.core.window_ahead_ms % 2 ^ 64)
      elim prepared [
        | ok (requested, epoch) ↦ do
          actual ← persist_bound requested epoch
          _ ← commit_actual actual epoch
          pure tt
        | err e ↦ on_core_error e
      ]

    unfoldable pub extend_window : ℕ → ℕ → Handler D (Unit {0})
    unfolding extend
    extend_window now_ms count = do
      modify run.extension_slot
      granted ← gets λ s. would_grant s.core.allocator now_ms count
      if granted then pure tt else extend now_ms

    -- The second turn of the loop: an exhausted window is an error now.
    unfoldable pub second_attempt : ℕ → ℕ → Handler D GetTsResponse
    unfolding try_grant_now on_core_error
    second_attempt now_ms count =
        matching (try_grant_now now_ms count)
          λ r. elim r [ ok grant ↦ pure (response grant) | err e ↦ on_core_error e ]

    unfoldable pub first_attempt : ℕ → ℕ → Result CoreError WindowGrant → Handler D GetTsResponse
    unfolding extend_window second_attempt on_core_error
    first_attempt now_ms count (ok grant) = pure (response grant)
    first_attempt now_ms count (err window_exhausted) = do
      extend_window now_ms count
      second_attempt now_ms count
    first_attempt now_ms count (err e) = on_core_error e

    unfoldable pub get_ts : ℕ → ℕ → Handler D GetTsResponse
    unfolding ensure_serving try_grant_now first_attempt
    get_ts now_ms count = do
      throw_if (count == 0) (status invalid_argument zero_count)
      ensure_serving
      matching (try_grant_now now_ms count) (first_attempt now_ms count)

  unfoldable pub get_current_max_safe : Handler D (ℕ × (ℕ × ℕ))
  get_current_max_safe =
      gets
        λ s. (current_max_safe_physical_ms s.core, to_wire (epoch_or_zero (current_epoch s.core)))

  unfoldable pub get_safe_frontier : ℕ → Handler D (ℕ × (ℕ × ℕ))
  get_safe_frontier now_ms =
      gets λ s.
        (safe_frontier_physical_ms s.core now_ms, to_wire (epoch_or_zero (current_epoch s.core)))
