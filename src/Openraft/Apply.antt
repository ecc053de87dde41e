-- ===== src/Openraft/Apply.antt =====
-- state_machine.rs: the state, and `apply`. One process's state machine: the core behind its lock,
-- the version cell that is shared with the log store, and what the snapshot store holds.
use tsoracle.Prelude.{
  ℕ, Bool, true, false, leb, ◌==◌, ◌&&◌, if◌then◌else◌, Option, some, List, [], ◌∷◌,
}
use tsoracle.Consensus.{merge}
use tsoracle.Openraft.Entries.{
  min_readable_version, max_readable_version, LeaseSet, HighWaterCommand, ApplyOutcome,
  HighWaterApplied, EntryPayload, blank, normal, membership, Entry, Raft, format_activated,
  format_activation_noop, format_activation_target_out_of_range, leases_replaced, leases_fenced,
  advanced,
}
use tsoracle.Openraft.Counters.{Counters, advance_one, advance_batch}

-- Bytes of a versioned format: the leading version byte, and the body.
pub record Frame (B : Type 0) : Type 0 where
  pub version : ℕ
  pub body : B

pub record SnapMeta (L S : Type 0) : Type 0 where
  pub last_log_id : Option L
  pub last_membership : S

pub record StoredSnapshot (L S B : Type 0) : Type 0 where
  pub meta : SnapMeta L S
  pub snapshot_data : Frame B

pub record Core (L S B : Type 0) : Type 0 where
  pub current_value : ℕ
  pub dense : Counters
  pub dense_cap : ℕ
  pub leases : LeaseSet
  pub last_applied : Option L
  pub last_membership : S
  pub current_snapshot : Option (StoredSnapshot L S B)

pub record StateMachine (L S B : Type 0) : Type 0 where
  pub core : Core L S B
  pub active_write_version : ℕ
  pub store : Option (Frame B)

-- `is_subset` of two sets of node ids
abbrev pub member : ℕ → List ℕ → Bool
member i [] = false
member i (j ∷ js) = if i == j then true else member i js

unfoldable pub is_subset : List ℕ → List ℕ → Bool
is_subset [] js = true
is_subset (i ∷ is) js = member i js && is_subset is js

module _ {L M S B : Type 0} (r : Raft L M S) where
  -- Each command changes the core or the version cell, and has an outcome.
  abbrev pub apply_format : ℕ → List ℕ → StateMachine L S B → ApplyOutcome × StateMachine L S B
  apply_format target gated_members s =
      if leb min_readable_version target && leb target max_readable_version
      then (if is_subset (r.node_ids s.core.last_membership) gated_members
          then (format_activated target, record s { active_write_version = target })
          else (format_activation_noop target, s))
      else (format_activation_target_out_of_range target, s)

  abbrev pub with_dense :
      ApplyOutcome × Counters → StateMachine L S B → ApplyOutcome × StateMachine L S B
  with_dense (outcome, dense) s = (outcome, record s { core = record (s.core) { dense = dense } })

  abbrev pub apply_command :
      L → HighWaterCommand → StateMachine L S B → ApplyOutcome × StateMachine L S B
  apply_command log_id (HighWaterCommand.advance p) s = (
    advanced,
    record s { core = record (s.core) { current_value = merge p s.core.current_value } },
  )
  apply_command log_id (HighWaterCommand.set_format_version target gated) s =
      apply_format target gated s
  apply_command log_id (HighWaterCommand.advance_dense e) s =
      with_dense (advance_one s.core.dense_cap e s.core.dense) s
  apply_command log_id (HighWaterCommand.advance_dense_batch es) s =
      with_dense (advance_batch s.core.dense_cap es s.core.dense) s
  apply_command log_id (HighWaterCommand.set_leases expected_term leases) s =
      if r.term log_id == expected_term
      then (leases_replaced, record s { core = record (s.core) { leases = leases } })
      else (leases_fenced expected_term (r.term log_id), s)

  abbrev pub apply_payload :
      L → EntryPayload M → StateMachine L S B → ApplyOutcome × StateMachine L S B
  apply_payload log_id blank s = (advanced, s)
  apply_payload log_id (normal c) s = apply_command log_id c s
  apply_payload log_id (membership m) s =
      (advanced, record s { core = record (s.core) { last_membership = r.new_stored log_id m } })

  abbrev pub applied : L → ApplyOutcome × StateMachine L S B → HighWaterApplied × StateMachine L S B
  applied log_id (outcome, s) = (
    record { value = s.core.current_value; outcome = outcome },
    record s { core = record (s.core) { last_applied = some log_id } },
  )

  unfoldable pub apply_entry :
      Entry L M → StateMachine L S B → HighWaterApplied × StateMachine L S B
  apply_entry e s = applied e.log_id (apply_payload e.log_id e.payload s)

  -- `apply` of the entries in log order: the responses, and the state after.
  unfoldable pub apply :
      List (Entry L M) → StateMachine L S B → List HighWaterApplied × StateMachine L S B
  unfolding apply_entry
  apply [] s = ([], s)
  apply (e ∷ es) s =
      let (a, s') = apply_entry e s in let (answers, s'') = apply es s' in (a ∷ answers, s'')
