-- ===== src/Server/Sequences.antt =====
-- crates/tsoracle-server/src/service.rs: `get_seq` and `get_seq_batch`.
use tsoracle.Prelude.{
  ℕ, ◌==◌, ◌%◌, ◌^◌, not, if◌then◌else◌, Bool, true, false, Option, none, some, List, [], ◌∷◌,
  length, Result, ok, err, ltb,
}
use tsoracle.BTreeMap.{same, bytes_ord}
use tsoracle.Epoch.{Epoch, to_wire}
use tsoracle.CoreError.{
  CoreError, seq_key_empty, seq_key_too_long, seq_count_zero, seq_count_too_large,
}
use tsoracle.Seq.{SeqKey, try_new_grant}
use tsoracle.Consensus.{
  ConsensusError, fenced, transient_driver, dense_unsupported, seq_key_cardinality_exceeded,
  seq_overflow, dense_not_activated, dense_batch_not_activated,
}
use tsoracle.Server.Status.{
  status, invalid_argument, failed_precondition, internal, unavailable, unimplemented,
  resource_exhausted, empty_batch, batch_too_large, duplicate_key, invalid_sequence_key,
  count_out_of_bounds, counter_overflow, no_dense_sequences, cardinality_cap_reached,
  not_yet_activated, of_core, of_source, of_consensus, wrong_number_of_starts, core_status,
}
use tsoracle.Server.Core.{seq_validate}
use tsoracle.Server.Action.{
  Runtime, Handler, pure, throw, gets, matching, ◌>>=◌, ◌>>◌, throw_if, redirect, ensure_serving,
}
use tsoracle.Server.Leases.{current_epoch_or_not_leader}

pub record GetSeqResponse : Type 0 where
  pub key : List ℕ
  pub start : ℕ
  pub count : ℕ
  pub epoch : ℕ × ℕ

pub record SeqGrantEntry : Type 0 where
  pub key : List ℕ
  pub start : ℕ
  pub count : ℕ

pub record GetSeqBatchResponse : Type 0 where
  pub grants : List SeqGrantEntry
  pub epoch : ℕ × ℕ

-- `seen.insert(key)` over the batch: the first key that an earlier entry has.
abbrev pub member : List ℕ → List (List ℕ) → Bool
member k [] = false
member k (s ∷ seen) = let rest = member k seen in if same k s then true else rest

unfoldable pub first_duplicate : List (List ℕ) → List (List ℕ × ℕ) → Option (List ℕ)
first_duplicate seen [] = none
first_duplicate seen ((k, c) ∷ es) =
    let rest = first_duplicate (k ∷ seen) es in if member k seen then some k else rest

-- The grants of the batch, in its order, or the first that cannot be built.
unfoldable pub build_grants :
    Epoch → List (SeqKey × ℕ) → List ℕ → Result CoreError (List SeqGrantEntry)
build_grants epoch [] starts = ok []
build_grants epoch (e ∷ es) [] = ok []
build_grants epoch ((k, c) ∷ es) (start ∷ starts) =
    let rest = build_grants epoch es starts in
    elim (try_new_grant k start c epoch) [
      | ok g ↦ elim rest [
        | ok gs ↦ ok (record { key = g.key.bytes; start = g.start; count = g.count } ∷ gs)
        | err x ↦ err x
      ]
      | err x ↦ err x
    ]

module _ {D : Type 0} where
  -- The answer to a request that `seq_validate` refuses.
  unfoldable pub on_seq_error : {A : Type 0} → CoreError → Handler D A
  on_seq_error CoreError.not_leader = redirect
  on_seq_error seq_key_empty = throw (status invalid_argument invalid_sequence_key)
  on_seq_error (seq_key_too_long l m) = throw (status invalid_argument invalid_sequence_key)
  on_seq_error seq_count_zero = throw (status invalid_argument count_out_of_bounds)
  on_seq_error (seq_count_too_large c m) = throw (status invalid_argument count_out_of_bounds)
  on_seq_error e = throw (status internal (of_core e))

  unfoldable pub validated : List ℕ → ℕ → Handler D SeqKey
  unfolding on_seq_error
  validated key count s = elim (seq_validate s.core key count) [
    | ok k ↦ (ok k, s)
    | err e ↦ on_seq_error e s
  ]

  unfoldable pub validate_all : List (List ℕ × ℕ) → Handler D (List (SeqKey × ℕ))
  unfolding validated
  validate_all [] = pure []
  validate_all ((k, c) ∷ es) = do
    key ← validated k c
    keys ← validate_all es
    pure ((key, c) ∷ keys)

  unfoldable pub on_dense_error : {A : Type 0} → ConsensusError → Handler D A
  on_dense_error (seq_key_cardinality_exceeded cap) =
      throw (status resource_exhausted (cardinality_cap_reached cap))
  on_dense_error seq_overflow = throw (status failed_precondition counter_overflow)
  on_dense_error (ConsensusError.not_leader observed) = redirect
  on_dense_error (fenced expected current) = redirect
  on_dense_error dense_unsupported = throw (status unimplemented no_dense_sequences)
  on_dense_error (dense_not_activated required active) =
      throw (status failed_precondition (not_yet_activated active required))
  on_dense_error (transient_driver source) = throw (status unavailable (of_source source))
  on_dense_error e = throw (status internal (of_consensus e))

  unfoldable pub on_batch_error : {A : Type 0} → ConsensusError → Handler D A
  on_batch_error (seq_key_cardinality_exceeded cap) =
      throw (status resource_exhausted (cardinality_cap_reached cap))
  on_batch_error seq_overflow = throw (status failed_precondition counter_overflow)
  on_batch_error (ConsensusError.not_leader observed) = redirect
  on_batch_error (fenced expected current) = redirect
  on_batch_error dense_unsupported = throw (status unimplemented no_dense_sequences)
  on_batch_error (dense_batch_not_activated required active) =
      throw (status failed_precondition (not_yet_activated active required))
  on_batch_error (transient_driver source) = throw (status unavailable (of_source source))
  on_batch_error e = throw (status internal (of_consensus e))

  unfoldable pub seq_response : SeqKey → ℕ → ℕ → Epoch → Handler D GetSeqResponse
  seq_response key start count epoch = elim (try_new_grant key start count epoch) [
    | ok g ↦
        pure
          (record { key = g.key.bytes; start = g.start; count = g.count; epoch = to_wire g.epoch })
    | err e ↦ throw (core_status e)
  ]

  unfoldable pub batch_response : List (SeqKey × ℕ) → List ℕ → Epoch → Handler D GetSeqBatchResponse
  unfolding build_grants
  batch_response keys starts epoch =
      if not (length starts == length keys)
      then throw (status internal (wrong_number_of_starts (length starts) (length keys)))
      else elim (build_grants epoch keys starts) [
        | ok gs ↦ pure (record { grants = gs; epoch = to_wire epoch })
        | err e ↦ throw (core_status e)
      ]

  module _ (run : Runtime D) where
    unfoldable pub get_seq : List ℕ → ℕ → Handler D GetSeqResponse
    unfolding ensure_serving validated current_epoch_or_not_leader seq_response on_dense_error
    get_seq key count = do
      ensure_serving
      seq_key ← validated key count
      epoch ← current_epoch_or_not_leader
      matching (run.consensus.advance_dense seq_key count epoch) λ r. elim r [
        | ok start ↦ seq_response seq_key start count epoch
        | err e ↦ on_dense_error e
      ]

    -- `len() as u32` keeps the low 32 bits.
    unfoldable pub check_batch : List (List ℕ × ℕ) → Handler D (Unit {0})
    unfolding first_duplicate
    check_batch entries = do
      throw_if (length entries == 0) (status invalid_argument empty_batch)
      max_keys ← gets λ s. s.core.max_seq_batch_keys
      throw_if (ltb max_keys (length entries % 2 ^ 32))
          (status invalid_argument (batch_too_large (length entries) max_keys))
      elim (first_duplicate [] entries) [
        | none ↦ pure tt
        | some k ↦ throw (status invalid_argument (duplicate_key k))
      ]

    unfoldable pub get_seq_batch : List (List ℕ × ℕ) → Handler D GetSeqBatchResponse
    unfolding ensure_serving check_batch validate_all current_epoch_or_not_leader batch_response
        on_batch_error
    get_seq_batch entries = do
      ensure_serving
      check_batch entries
      keys ← validate_all entries
      epoch ← current_epoch_or_not_leader
      matching (run.consensus.advance_dense_batch keys epoch)
          λ r. elim r [ ok starts ↦ batch_response keys starts epoch | err e ↦ on_batch_error e ]
