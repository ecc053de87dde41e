-- ===== src/Openraft/HighWater.antt =====
-- What an answer to an advance of the high-water means for the replicated state.
use tsoracle.Prelude.{ℕ, ◌≤◌, ◌≡◌, List, [], ◌∷◌, Result, ok, err, arith}
use tsoracle.BTreeMap.{bytes_ord}
use tsoracle.Consensus.{ConsensusError, merge}
use tsoracle.Openraft.Entries.{
  HighWaterCommand, EntryPayload, blank, normal, membership, Entry, Raft,
}
use tsoracle.Openraft.Apply.{StateMachine, apply_command, apply_payload, apply_entry, apply}
use tsoracle.Openraft.Cases.{format-any, leases-any}
use tsoracle.Openraft.Driver.{
  Write, commits, fails, fails_applied, client_write, persist_high_water,
}

module _ {L M S B : Type 0} (r : Raft L M S) where
  abbrev Grows : StateMachine L S B → StateMachine L S B → Type 0
  Grows s t = s.core.current_value ≤ t.core.current_value

  command-Grows :
      (l : L) (c : HighWaterCommand) (s : StateMachine L S B) → Grows s (apply_command r l c s).1
  unfolding merge
  command-Grows l (HighWaterCommand.advance p) s = ground arith
  command-Grows l (HighWaterCommand.set_format_version target gated) s =
      format-any r (Grows s) target gated s (omega arith) (omega arith)
  command-Grows l (HighWaterCommand.advance_dense e) s = omega arith
  command-Grows l (HighWaterCommand.advance_dense_batch es) s = omega arith
  command-Grows l (HighWaterCommand.set_leases term ls) s =
      leases-any r (Grows s) l term ls s (omega arith) (omega arith)

  payload-Grows :
      (l : L) (p : EntryPayload M) (s : StateMachine L S B) → Grows s (apply_payload r l p s).1
  payload-Grows l blank s = omega arith
  payload-Grows l (normal c) s = command-Grows l c s
  payload-Grows l (membership m) s = omega arith

  entry-Grows : (e : Entry L M) (s : StateMachine L S B) → Grows s (apply_entry r e s).1
  unfolding apply_entry
  entry-Grows e s = payload-Grows e.log_id e.payload s

  apply-Grows : (es : List (Entry L M)) (s : StateMachine L S B) → Grows s (apply r es s).1
  unfolding apply
  apply-Grows [] s = omega arith
  apply-Grows (e ∷ es) s = omega (arith, entry-Grows e s, apply-Grows es (apply_entry r e s).1)

  abbrev pub HighWaterPersisted :
      ℕ → StateMachine L S B → Result ConsensusError ℕ × StateMachine L S B → Type 0
  HighWaterPersisted at_least s (ok v, t) =
      (at_least ≤ v) × (s.core.current_value ≤ v) × (t.core.current_value ≡ v)
  HighWaterPersisted at_least s (err e, t) = s.core.current_value ≤ t.core.current_value

  -- However a proposal ends: an answered high-water is at least what was asked for and what was there
  -- before, and is the replicated one; a call that fails has not lowered the replicated one.
  pub persist_high_water_lem :
      (w : Write L M) (at_least : ℕ) (s : StateMachine L S B)
      → HighWaterPersisted at_least s (persist_high_water r w at_least s)
  unfolding persist_high_water client_write apply_entry merge
  persist_high_water_lem (commits before l) at_least s = ground (arith, apply-Grows before s)
  persist_high_water_lem (fails e b) at_least s = ground arith
  persist_high_water_lem (fails_applied before l e b) at_least s =
      ground (arith, apply-Grows before s)
