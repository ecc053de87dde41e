-- ===== src/Server/Tasks.antt =====
-- Whatever a server does, one task after another: its core's invariant holds throughout.
use tsoracle.Prelude.{ℕ, List, [], ◌∷◌}
use tsoracle.Consensus.{LeaderState}
use tsoracle.Server.Action.{Server, Runtime}
use tsoracle.Server.Window.{get_ts}
use tsoracle.Server.Leases.{
  AcquireLeaseRequest, LeaseLimits, acquire_lease, renew_lease, release_lease,
}
use tsoracle.Server.Fence.{on_event}
use tsoracle.Server.Invariant.{IsCore}
use tsoracle.Server.Handlers.{IsQuiet, get_ts-Keeps}
use tsoracle.Server.LeaseHandlers.{acquire-Keeps, renew-Keeps, release-Keeps}
use tsoracle.Server.Watch.{QuietTurns, on_event-IsCore}

-- What can change the core: a request, at the time that the clock shows, or a leadership event with
-- the turns of its fence.
pub data Task (D : Type 0) : Type 0 where
  timestamps : (now_ms count : ℕ) → Task D
  acquires : (limits : LeaseLimits) (now_ms : ℕ) (req : AcquireLeaseRequest) → Task D
  renews : (now_ms lease_id : ℕ) → Task D
  releases : (now_ms lease_id : ℕ) → Task D
  event : (turns : List ((Server D → Server D) × ℕ)) (evt : LeaderState) → Task D

abbrev pub QuietTask : {D : Type 0} → Task D → Type 0
QuietTask (event turns evt) = QuietTurns turns
QuietTask _ = Unit

module _ {D : Type 0} (run : Runtime D) (failover_advance_ms : ℕ) where
  unfoldable pub run_task : Task D → Server D → Server D
  run_task (timestamps now count) s = (get_ts run now count s).1
  run_task (acquires limits now req) s = (acquire_lease run limits now req s).1
  run_task (renews now id) s = (renew_lease run now id s).1
  run_task (releases now id) s = (release_lease run now id s).1
  run_task (event turns evt) s = (on_event run failover_advance_ms turns evt s).1

  unfoldable pub run_all : List (Task D) → Server D → Server D
  unfolding run_task
  run_all [] s = s
  run_all (t ∷ ts) s = run_all ts (run_task t s)

  abbrev pub AllQuiet : List (Task D) → Type 0
  AllQuiet [] = Unit
  AllQuiet (t ∷ ts) = QuietTask t × AllQuiet ts

  run_task-IsCore :
      (t : Task D) (s : Server D)
      → IsQuiet run
      → QuietTask t
      → IsCore s.core
      → IsCore (run_task t s).core
  unfolding run_task
  run_task-IsCore (timestamps now count) s q k v = get_ts-Keeps run q now count s v
  run_task-IsCore (acquires limits now req) s q k v = acquire-Keeps run q limits now req s v
  run_task-IsCore (renews now id) s q k v = renew-Keeps run q now id s v
  run_task-IsCore (releases now id) s q k v = release-Keeps run q now id s v
  run_task-IsCore (event turns evt) s q k v =
      on_event-IsCore run q failover_advance_ms turns evt s k v

  -- After any sequence of timestamp and lease requests and leadership events, with backend calls and
  -- lock waits during which other tasks keep the invariant: the allocator's window is sound, the
  -- sequence gate is open under exactly the allocator's epoch, and a server that serves is a leader.
  pub run_all-IsCore :
      (ts : List (Task D)) (s : Server D)
      → IsQuiet run
      → AllQuiet ts
      → IsCore s.core
      → IsCore (run_all ts s).core
  unfolding run_all
  run_all-IsCore [] s q k v = v
  run_all-IsCore (t ∷ ts) s q k v =
      run_all-IsCore ts (run_task t s) q k.1 (run_task-IsCore t s q k.0 v)
