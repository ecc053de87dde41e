-- ===== src/Openraft/LeaseSets.antt =====
-- Lease sets in order: through the log, and in a snapshot that is read.
use mathlib.Core.Path.{subst}
use tsoracle.Prelude.{
  ℕ, ◌≡◌, refl, ap, Bool, true, false, not, ◌==◌, ◌||◌, List, [], ◌∷◌, Result, ok, err, ◌>>=◌, ◌>>◌,
  fail_if, map_err, ltb, All, Bool-cases, inl, inr,
}
use tsoracle.BTreeMap.Ord.{Ord}
use tsoracle.Openraft.Entries.{
  Entry, Raft, EntryPayload, blank, normal, membership, HighWaterCommand, min_readable_version,
  max_readable_version, baseline_write_version, dense_write_version, batch_write_version,
  lease_write_version,
}
use tsoracle.Openraft.Apply.{
  Frame, SnapMeta, StateMachine, apply, apply_entry, apply_payload, apply_command,
}
use tsoracle.Openraft.Cases.{format-any, leases-any}
use tsoracle.Openraft.Codec.{
  CodecError, Codecs, lift_v4, lift_v5, Snapshot, is_lease_set, decode_version, decode_framed,
  decode_postcard_exact, with_checked_leases,
}
use tsoracle.Openraft.Snapshot.{
  IoError, codec_io_error, same_log_id, decode_payload, check_keys, disagreement, invalid_key,
}
use tsoracle.Openraft.Machine.{checked_payload}
use tsoracle.Openraft.RoundTrip.{or_value}
use tsoracle.Openraft.Invariant.{IsEntry, IsPayload, IsCommand}

-- The entries keep the lease set in order.
module _ {L M S B : Type 0} (r : Raft L M S) where
  abbrev pub HasLeases : StateMachine L S B → Type 0
  HasLeases s = is_lease_set s.core.leases ≡ true

  command-HasLeases :
      (l : L) (x : HighWaterCommand) (s : StateMachine L S B)
      → IsCommand x
      → HasLeases s
      → HasLeases (apply_command r l x s).1
  command-HasLeases l (HighWaterCommand.advance p) s h q = q
  command-HasLeases l (HighWaterCommand.set_format_version target gated) s h q =
      format-any r HasLeases target gated s q q
  command-HasLeases l (HighWaterCommand.advance_dense e) s h q = q
  command-HasLeases l (HighWaterCommand.advance_dense_batch es) s h q = q
  command-HasLeases l (HighWaterCommand.set_leases term ls) s h q =
      leases-any r HasLeases l term ls s q h

  payload-HasLeases :
      (l : L) (p : EntryPayload M) (s : StateMachine L S B)
      → IsPayload p
      → HasLeases s
      → HasLeases (apply_payload r l p s).1
  payload-HasLeases l blank s h q = q
  payload-HasLeases l (normal x) s h q = command-HasLeases l x s h q
  payload-HasLeases l (membership m) s h q = q

  pub apply-HasLeases :
      (es : List (Entry L M)) (s : StateMachine L S B)
      → All IsEntry es
      → HasLeases s
      → HasLeases (apply r es s).1
  unfolding apply apply_entry
  apply-HasLeases [] s h q = q
  apply-HasLeases (e ∷ es) s h q =
      apply-HasLeases es (apply_entry r e s).1 h.1 (payload-HasLeases e.log_id e.payload s h.0 q)

module _ {L S B : Type 0} ⦃o : Ord L⦄ (c : Codecs L S B) where
  abbrev InOrder : {E : Type 0} → Result E (Snapshot L S) → Type 0
  InOrder (ok p) = is_lease_set p.leases ≡ true
  InOrder (err e) = Unit

  checked-InOrder : (x : Result CodecError (Snapshot L S)) → InOrder (x >>= with_checked_leases c)
  checked-InOrder (err e) = tt
  checked-InOrder (ok p) = elim (Bool-cases (is_lease_set p.leases)) [
    | inl sorted ↦ rw sorted sorted
    | inr other ↦ rw other tt
  ]

  lifted-InOrder :
      {A : Type 0} (lift : A → Snapshot L S) (x : Result CodecError A)
      → ((a : A) → is_lease_set (lift a).leases ≡ true)
      → InOrder {E = CodecError} (x >>= λ a. ok (lift a))
  lifted-InOrder lift (ok a) h = h a
  lifted-InOrder lift (err e) h = tt

  version-InOrder : (v : ℕ) (b : B) → InOrder (decode_version c v b)
  unfolding decode_version is_lease_set
  version-InOrder v b = elim (Bool-cases (v == baseline_write_version)) [
    | inl four ↦ rw four (lifted-InOrder (lift_v4 c) (decode_postcard_exact c.v4 b) (λ old. refl))
    | inr not_four ↦
        rw not_four (elim (Bool-cases (v == dense_write_version || v == batch_write_version)) [
          | inl five ↦
              rw five (lifted-InOrder (lift_v5 c) (decode_postcard_exact c.v5 b) (λ old. refl))
          | inr not_five ↦ rw not_five (elim (Bool-cases (v == lease_write_version)) [
            | inl seven ↦ rw seven (checked-InOrder (decode_postcard_exact c.v7 b))
            | inr other ↦ rw other tt
          ])
        ])
  ]

  payload-InOrder : (f : Frame B) → InOrder (decode_payload c f)
  unfolding decode_payload decode_framed
  payload-InOrder f =
      elim (Bool-cases (ltb f.version min_readable_version || ltb max_readable_version f.version)) [
        | inl out ↦ rw out tt
        | inr range ↦
            rw range (mapped (decode_version c f.version f.body) (version-InOrder f.version f.body))
      ]
    where
      mapped :
          (x : Result CodecError (Snapshot L S)) → InOrder x → InOrder (map_err codec_io_error x)
      mapped (ok p) h = h
      mapped (err e) h = tt

  abbrev pub Checked : SnapMeta L S → Snapshot L S → Type 0
  Checked meta p =
      (is_lease_set p.leases ≡ true) × (same_log_id meta.last_log_id p.last_applied ≡ true)

  pub payload-Checked :
      (meta : SnapMeta L S) (f : Frame B) (p : Snapshot L S)
      → checked_payload c meta f ≡ ok p
      → (decode_payload c f ≡ ok p) × Checked meta p
  payload-Checked meta f p h = go (decode_payload c f) refl (payload-InOrder f) h
    where
      keys : (q : Snapshot L S) (x : Result IoError (Unit {0})) → (x >>= λ u. ok q) ≡ ok p → q ≡ p
      keys q (ok u) k = ap (or_value q) k
      keys q (err e) k = cc

      agreed :
          (d : Snapshot L S) (b : Bool)
          → same_log_id meta.last_log_id d.last_applied ≡ b
          → (fail_if (not b) disagreement
              >> (map_err invalid_key (check_keys d.dense) >>= λ u. ok d))
            ≡ ok p
          → (d ≡ p) × (same_log_id meta.last_log_id d.last_applied ≡ true)
      agreed d true h k = (keys d (map_err invalid_key (check_keys d.dense)) k, h)
      agreed d false h k = cc

      go :
          (x : Result IoError (Snapshot L S))
          → decode_payload c f ≡ x
          → InOrder x
          → (x >>= λ q.
              fail_if (not (same_log_id meta.last_log_id q.last_applied)) disagreement
              >> (map_err invalid_key (check_keys q.dense) >>= λ u. ok q))
            ≡ ok p
          → (decode_payload c f ≡ ok p) × Checked meta p
      go (err e) q i k = cc
      go (ok d) q i k =
          let (same, agree) = agreed d (same_log_id meta.last_log_id d.last_applied) refl k in
          subst (λ x. (decode_payload c f ≡ ok x) × Checked meta x) same (q, (i, agree))
