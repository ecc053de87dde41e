-- ===== src/Consensus.antt =====
-- crates/tsoracle-consensus/src: what a consensus backend promises to the server (driver.rs), its
-- errors (error.rs), the leadership it reports (leadership.rs) and the advance of the replicated
-- high-water (advance.rs).
pub mod Advance
use tsoracle.Prelude.{ℕ, ◌⊎◌, max, Option, List, Result, ok, err, fail_if, ◌>>◌, ltb}
use tsoracle.Timestamp.{physical_ms_max}
use tsoracle.Epoch.{Epoch}
use tsoracle.Peer.{PeerEndpoint}
use tsoracle.Seq.{SeqKey}
use tsoracle.Lease.{LeaseRecord}

-- An error, and the boxed source that two of its variants carry: something of the outside, told
-- apart by a number, or an error of this type again.
mutual
  pub data ConsensusError : Type 0 where
    not_leader : (observed : Option Epoch) → ConsensusError
    fenced : (expected current : Epoch) → ConsensusError
    transient_driver : (source : Source) → ConsensusError
    permanent_driver : (source : Source) → ConsensusError
    advance_out_of_range : (at_least : ℕ) → ConsensusError
    dense_unsupported : ConsensusError
    seq_key_cardinality_exceeded : (cap : ℕ) → ConsensusError
    seq_overflow : ConsensusError
    dense_not_activated : (required active : ℕ) → ConsensusError
    dense_batch_not_activated : (required active : ℕ) → ConsensusError
    leases_unsupported : ConsensusError
    leases_not_activated : (required active : ℕ) → ConsensusError

  pub data Source : Type 0 where
    external : (number : ℕ) → Source
    wrapped : (error : ConsensusError) → Source

pub data LeaderState : Type 0 where
  leader : (epoch : Epoch) → LeaderState
  follower : (leader_endpoint : Option PeerEndpoint) (leader_epoch : Option Epoch) → LeaderState
  unknown : LeaderState

pub record AdvancePayload : Type 0 where
  pub at_least : ℕ

unfoldable pub merge : AdvancePayload → ℕ → ℕ
merge p current = max current p.at_least

unfoldable pub reject_out_of_range_advance : ℕ → Result ConsensusError (Unit {0})
reject_out_of_range_advance at_least =
    fail_if (ltb physical_ms_max at_least) (advance_out_of_range at_least)

-- A call of the backend on a state `S`: its answer, and the state when it is there.
abbrev pub Call : Type 0 → Type 0 → Type 0
Call S A = S → Result ConsensusError A × S

-- `trait ConsensusDriver`, less the stream of leadership events
pub record ConsensusDriver (S : Type 0) : Type 0 where
  pub load_high_water : Call S ℕ
  pub persist_high_water : ℕ → Epoch → Call S ℕ
  pub load_dense_seq : SeqKey → Call S ℕ
  pub advance_dense : SeqKey → ℕ → Epoch → Call S ℕ
  pub advance_dense_batch : List (SeqKey × ℕ) → Epoch → Call S (List ℕ)
  pub load_leases : Call S (List LeaseRecord)
  pub persist_leases : List LeaseRecord → Epoch → Call S (Unit {0})

-- A backend that has only the two methods without a default body.
unfoldable pub with_defaults : {S : Type 0} → Call S ℕ → (ℕ → Epoch → Call S ℕ) → ConsensusDriver S
with_defaults load persist = record {
  load_high_water = load;
  persist_high_water = persist;
  load_dense_seq = λ key s. (err dense_unsupported, s);
  advance_dense = λ key count expected_epoch s. (err dense_unsupported, s);
  advance_dense_batch = λ entries expected_epoch s. (err dense_unsupported, s);
  load_leases = λ s. (err leases_unsupported, s);
  persist_leases = λ live epoch s. (err leases_unsupported, s);
}
