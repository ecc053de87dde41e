-- ===== src/Openraft/Codec.antt =====
-- The versioned snapshot formats of state_machine.rs over the framing of crates/tsoracle-codec/src. What
-- postcard makes of a layout is a parameter; the lease set is checked again when it is read.
use tsoracle.Prelude.{
  ℕ, Bool, true, false, not, leb, ltb, ◌==◌, ◌&&◌, ◌||◌, if◌then◌else◌, Option, some, List, [], ◌∷◌,
  length, Result, ok, err, ◌>>=◌, ◌>>◌, fail_if, ok_or, ◌≡◌,
}
use tsoracle.Lease.{LeaseRecord, max_lease_holder_len}
use tsoracle.Openraft.Entries.{
  min_readable_version, max_readable_version, baseline_write_version, dense_write_version,
  batch_write_version, lease_write_version, LeaseSet,
}
use tsoracle.Openraft.Counters.{Counters}
use tsoracle.Openraft.Apply.{Frame, SnapMeta}

pub data CodecError : Type 0 where
  encode_failed decode_failed : CodecError
  version_unsupported : (min max actual : ℕ) → CodecError
  not_representable : (version : ℕ) → CodecError

pub record SnapshotV4 (L S : Type 0) : Type 0 where
  pub current_value : ℕ
  pub last_applied : Option L
  pub last_membership : S

pub record SnapshotV5 (L S : Type 0) : Type 0 where
  pub current_value : ℕ
  pub last_applied : Option L
  pub last_membership : S
  pub dense : Counters
  pub dense_cap : ℕ

-- `HighWaterStateMachineSnapshot`
pub record Snapshot (L S : Type 0) : Type 0 where
  pub current_value : ℕ
  pub last_applied : Option L
  pub last_membership : S
  pub dense : Counters
  pub dense_cap : ℕ
  pub leases : LeaseSet

pub record PersistedSnapshot (L S B : Type 0) : Type 0 where
  pub meta : SnapMeta L S
  pub snapshot_data : Frame B

-- postcard on one type: what is encoded decodes to what it was, with no bytes left over.
pub record Postcard (B A : Type 0) : Type 0 where
  pub to_stdvec : A → Option B
  pub from_bytes : B → Option A
  pub round_trip : (a : A) (b : B) → to_stdvec a ≡ some b → from_bytes b ≡ some a

pub record Codecs (L S B : Type 0) : Type 0 where
  pub v4 : Postcard B (SnapshotV4 L S)
  pub v5 : Postcard B (SnapshotV5 L S)
  pub v7 : Postcard B (Snapshot L S)
  pub envelope : Postcard B (PersistedSnapshot L S B)

-- The checks of `DurableLease::try_from` and `LeaseSet::try_from`, which reading a set repeats.
abbrev pub has_holder_len : LeaseRecord → Bool
has_holder_len l = not (length l.holder == 0) && leb (length l.holder) max_lease_holder_len

unfoldable pub is_lease_set : List LeaseRecord → Bool
is_lease_set [] = true
is_lease_set (l ∷ []) = has_holder_len l
is_lease_set (l ∷ k ∷ ls) = has_holder_len l && ltb l.lease_id k.lease_id && is_lease_set (k ∷ ls)

abbrev pub is_empty {ℓ} : {A : Type ℓ} → List A → Bool
is_empty [] = true
is_empty (x ∷ xs) = false

module _ {A B : Type 0} where
  abbrev pub encode_postcard : Postcard B A → A → Result CodecError B
  encode_postcard p a = ok_or (p.to_stdvec a) encode_failed

  abbrev pub decode_postcard_exact : Postcard B A → B → Result CodecError A
  decode_postcard_exact p b = ok_or (p.from_bytes b) decode_failed

  unfoldable pub encode_framed : (ℕ → A → Result CodecError B) → ℕ → A → Result CodecError (Frame B)
  encode_framed encode_version version a = do
    body ← encode_version version a
    ok (record { version = version; body = body })

  unfoldable pub decode_framed :
      (ℕ → B → Result CodecError A) → ℕ → ℕ → Frame B → Result CodecError A
  decode_framed decode_version low high f = do
    fail_if (ltb f.version low || ltb high f.version) (version_unsupported low high f.version)
    decode_version f.version f.body

abbrev pub unsupported : {A : Type 0} → ℕ → Result CodecError A
unsupported v = err (version_unsupported min_readable_version max_readable_version v)

module _ {L S B : Type 0} (c : Codecs L S B) where
  abbrev pub lift_v4 : SnapshotV4 L S → Snapshot L S
  lift_v4 old = record {
    current_value = old.current_value;
    last_applied = old.last_applied;
    last_membership = old.last_membership;
    dense = [];
    dense_cap = 0;
    leases = [];
  }

  abbrev pub lift_v5 : SnapshotV5 L S → Snapshot L S
  lift_v5 old = record {
    current_value = old.current_value;
    last_applied = old.last_applied;
    last_membership = old.last_membership;
    dense = old.dense;
    dense_cap = old.dense_cap;
    leases = [];
  }

  abbrev pub with_checked_leases : Snapshot L S → Result CodecError (Snapshot L S)
  with_checked_leases p = fail_if (not (is_lease_set p.leases)) decode_failed >> ok p

  unfoldable pub decode_version : ℕ → B → Result CodecError (Snapshot L S)
  decode_version v body =
      if v == baseline_write_version
      then (decode_postcard_exact c.v4 body >>= λ old. ok (lift_v4 old))
      else if v == dense_write_version || v == batch_write_version
      then (decode_postcard_exact c.v5 body >>= λ old. ok (lift_v5 old))
      else if v == lease_write_version
      then (decode_postcard_exact c.v7 body >>= with_checked_leases)
      else unsupported v

  abbrev pub encode_v4 : Snapshot L S → Result CodecError B
  encode_v4 p = encode_postcard c.v4 (record {
    current_value = p.current_value;
    last_applied = p.last_applied;
    last_membership = p.last_membership;
  })

  abbrev pub encode_v5 : Snapshot L S → Result CodecError B
  encode_v5 p = encode_postcard c.v5 (record {
    current_value = p.current_value;
    last_applied = p.last_applied;
    last_membership = p.last_membership;
    dense = p.dense;
    dense_cap = p.dense_cap;
  })

  unfoldable pub encode_version : ℕ → Snapshot L S → Result CodecError B
  encode_version v p =
      if v == baseline_write_version
      then (fail_if (not (is_empty p.dense) || not (is_empty p.leases)) (not_representable v)
          >> encode_v4 p)
      else if v == dense_write_version || v == batch_write_version
      then (fail_if (not (is_empty p.leases)) (not_representable v) >> encode_v5 p)
      else if v == lease_write_version
      then encode_postcard c.v7 p
      else unsupported v

  -- The envelope has one layout at every version.
  abbrev pub is_supported : ℕ → Bool
  is_supported v =
      v == baseline_write_version
      || v == dense_write_version
      || v == batch_write_version
      || v == lease_write_version

  unfoldable pub decode_envelope : ℕ → B → Result CodecError (PersistedSnapshot L S B)
  decode_envelope v body =
      if is_supported v then decode_postcard_exact c.envelope body else unsupported v

  unfoldable pub encode_envelope : ℕ → PersistedSnapshot L S B → Result CodecError B
  encode_envelope v p = if is_supported v then encode_postcard c.envelope p else unsupported v
