-- ===== src/Openraft/Driver.antt =====
-- driver.rs, and standalone.rs below it: the calls of the consensus interface as proposals to the log.
-- What openraft makes of a proposal is a parameter: it commits behind other entries and the response of
-- its application is the answer, or it fails, with or without being applied.
use tsoracle.Prelude.{
  ℕ, Bool, true, not, ltb, leb, ◌&&◌, if◌then◌else◌, Option, none, List, [], ◌∷◌, map, Result, ok,
  err, ◌>>◌, fail_if, u64_max,
}
use tsoracle.Epoch.{Epoch}
use tsoracle.Seq.{SeqKey}
use tsoracle.Lease.{LeaseRecord}
use tsoracle.Consensus.{
  ConsensusError, not_leader, fenced, transient_driver, permanent_driver, external,
  seq_key_cardinality_exceeded, seq_overflow, dense_not_activated, dense_batch_not_activated,
  leases_not_activated, reject_out_of_range_advance,
}
use tsoracle.Openraft.Entries.{
  dense_write_version, batch_write_version, lease_write_version, LeaseSet, DenseAdvance,
  HighWaterCommand, ApplyOutcome, HighWaterApplied, dense_advanced, dense_cardinality_exceeded,
  dense_overflow, dense_batch_advanced, dense_batch_cardinality_exceeded, dense_batch_overflow,
  leases_replaced, leases_fenced, normal, Entry, Raft,
}
use tsoracle.Openraft.Apply.{StateMachine, apply_entry, apply}
use tsoracle.Openraft.Codec.{has_holder_len}

pub data LeaseSetError : Type 0 where
  holder_len unordered : LeaseSetError

abbrev pub have_holder_len : List LeaseRecord → Bool
have_holder_len [] = true
have_holder_len (l ∷ ls) = has_holder_len l && have_holder_len ls

-- `sort_by_key` by the lease id
abbrev pub insert_by_id : LeaseRecord → LeaseSet → LeaseSet
insert_by_id l [] = l ∷ []
insert_by_id l (k ∷ ls) = if leb l.lease_id k.lease_id then l ∷ k ∷ ls else k ∷ insert_by_id l ls

abbrev pub sort_by_id : List LeaseRecord → LeaseSet
sort_by_id [] = []
sort_by_id (l ∷ ls) = insert_by_id l (sort_by_id ls)

abbrev pub is_ordered : List LeaseRecord → Bool
is_ordered [] = true
is_ordered (l ∷ []) = true
is_ordered (l ∷ k ∷ ls) = ltb l.lease_id k.lease_id && is_ordered (k ∷ ls)

unfoldable pub from_records : List LeaseRecord → Result LeaseSetError LeaseSet
from_records records = do
  fail_if (not (have_holder_len records)) holder_len
  fail_if (not (is_ordered (sort_by_id records))) unordered
  ok (sort_by_id records)

pub data ClientWriteError : Type 0 where
  forward_to_leader : (leader_id : Option ℕ) → ClientWriteError
  fatal other : ClientWriteError

unfoldable pub classify_client_write_error : ClientWriteError → Bool → ConsensusError
classify_client_write_error (forward_to_leader none) true = transient_driver (external 1)
classify_client_write_error (forward_to_leader _) _ = not_leader none
classify_client_write_error fatal _ = permanent_driver (external 2)
classify_client_write_error other _ = transient_driver (external 3)

abbrev pub unexpected : ConsensusError
unexpected = permanent_driver (external 4)

-- What becomes of a proposal. `local_is_leader` is asked when it fails.
pub data Write (L M : Type 0) : Type 0 where
  commits : (before : List (Entry L M)) (log_id : L) → Write L M
  fails : (e : ClientWriteError) (local_is_leader : Bool) → Write L M
  fails_applied :
      (before : List (Entry L M)) (log_id : L) (e : ClientWriteError) (local_is_leader : Bool)
      → Write L M

-- What a call makes of the outcome that its entry had.
abbrev pub dense_start : ApplyOutcome → Result ConsensusError ℕ
dense_start (dense_advanced start) = ok start
dense_start (dense_cardinality_exceeded cap) = err (seq_key_cardinality_exceeded cap)
dense_start dense_overflow = err seq_overflow
dense_start _ = err unexpected

abbrev pub batch_starts : ApplyOutcome → Result ConsensusError (List ℕ)
batch_starts (dense_batch_advanced starts) = ok starts
batch_starts (dense_batch_cardinality_exceeded cap) = err (seq_key_cardinality_exceeded cap)
batch_starts dense_batch_overflow = err seq_overflow
batch_starts _ = err unexpected

unfoldable pub classify_set_leases_outcome : ApplyOutcome → Result ConsensusError (Unit {0})
classify_set_leases_outcome leases_replaced = ok tt
classify_set_leases_outcome (leases_fenced expected_term entry_term) =
    err (fenced (record { number = expected_term }) (record { number = entry_term }))
classify_set_leases_outcome _ = err unexpected

abbrev pub to_entry : SeqKey × ℕ → DenseAdvance
to_entry (key, count) = record { key = key; count = count }

module _ {L M S B : Type 0} (r : Raft L M S) where
  abbrev pub proposed :
      {A : Type 0}
      → (HighWaterApplied → Result ConsensusError A)
      → HighWaterApplied × StateMachine L S B
      → Result ConsensusError A × StateMachine L S B
  proposed read (a, s) = (read a, s)

  abbrev pub commit_entry :
      List (Entry L M)
      → L
      → HighWaterCommand
      → StateMachine L S B
      → HighWaterApplied × StateMachine L S B
  commit_entry before log_id c s =
      apply_entry r (record { log_id = log_id; payload = normal c }) (apply r before s).1

  unfoldable pub client_write :
      {A : Type 0}
      → (HighWaterApplied → Result ConsensusError A)
      → Write L M
      → HighWaterCommand
      → StateMachine L S B
      → Result ConsensusError A × StateMachine L S B
  unfolding classify_client_write_error
  client_write read (commits before log_id) c s = proposed read (commit_entry before log_id c s)
  client_write read (fails e local_is_leader) c s =
      (err (classify_client_write_error e local_is_leader), s)
  client_write read (fails_applied before log_id e local_is_leader) c s =
      (err (classify_client_write_error e local_is_leader), (commit_entry before log_id c s).1)

  unfoldable pub persist_high_water :
      Write L M → ℕ → StateMachine L S B → Result ConsensusError ℕ × StateMachine L S B
  unfolding client_write reject_out_of_range_advance
  persist_high_water w at_least s = elim (reject_out_of_range_advance at_least) [
    | err e ↦ (err e, s)
    | ok u ↦
        client_write (λ a. ok a.value) w (HighWaterCommand.advance (record { at_least = at_least }))
          s
  ]

  unfoldable pub advance_dense :
      Write L M → SeqKey → ℕ → StateMachine L S B → Result ConsensusError ℕ × StateMachine L S B
  unfolding client_write
  advance_dense w key count s =
      if ltb s.active_write_version dense_write_version
      then (err (dense_not_activated dense_write_version s.active_write_version), s)
      else client_write (λ a. dense_start a.outcome) w
          (HighWaterCommand.advance_dense (to_entry (key, count))) s

  unfoldable pub advance_dense_batch :
      Write L M
      → List (SeqKey × ℕ)
      → StateMachine L S B
      → Result ConsensusError (List ℕ) × StateMachine L S B
  unfolding client_write
  advance_dense_batch w entries s =
      if ltb s.active_write_version batch_write_version
      then (err (dense_batch_not_activated batch_write_version s.active_write_version), s)
      else client_write (λ a. batch_starts a.outcome) w
          (HighWaterCommand.advance_dense_batch (map to_entry entries)) s

  abbrev pub submit_set_leases :
      Write L M
      → ℕ
      → Result LeaseSetError LeaseSet
      → StateMachine L S B
      → Result ConsensusError (Unit {0}) × StateMachine L S B
  submit_set_leases w expected_term (err e) s = (err (permanent_driver (external 5)), s)
  submit_set_leases w expected_term (ok leases) s =
      client_write (λ a. classify_set_leases_outcome a.outcome) w
        (HighWaterCommand.set_leases expected_term leases) s

  unfoldable pub persist_leases :
      Write L M
      → List LeaseRecord
      → Epoch
      → StateMachine L S B
      → Result ConsensusError (Unit {0}) × StateMachine L S B
  unfolding client_write from_records classify_set_leases_outcome
  persist_leases w live epoch s =
      if ltb s.active_write_version lease_write_version
      then (err (leases_not_activated lease_write_version s.active_write_version), s)
      else if ltb u64_max epoch.number
      then (err (permanent_driver (external 6)), s)
      else submit_set_leases w epoch.number (from_records live) s
