-- ===== src/Openraft/Snapshot.antt =====
-- The snapshots of state_machine.rs: what is in one, what is checked, and which one is newer. How a
-- write of the store ends is a parameter.
use Prim.Native.Nat.{Ordering}
use Prim.Native.Nat.Ordering.{lt}
use tsoracle.Prelude.{
  ℕ, Bool, true, false, not, ltb, ◌==◌, if◌then◌else◌, Option, none, some, [], ◌∷◌, Result, ok,
  ◌>>=◌, map_err,
}
use tsoracle.BTreeMap.Ord.{Ord, same}
use tsoracle.CoreError.{CoreError}
use tsoracle.Seq.{try_new_key}
use tsoracle.Openraft.Entries.{min_readable_version, max_readable_version}
use tsoracle.Openraft.Counters.{Counters}
use tsoracle.Openraft.Apply.{Frame, SnapMeta, StoredSnapshot, Core}
use tsoracle.Openraft.Codec.{
  CodecError, Snapshot, PersistedSnapshot, Codecs, encode_framed, decode_framed, decode_version,
  encode_version, decode_envelope, encode_envelope,
}

abbrev pub default_dense_cardinality_cap : ℕ
default_dense_cardinality_cap = 10000

pub data IoError : Type 0 where
  codec_io_error : (e : CodecError) → IoError
  disagreement : IoError
  invalid_key : (e : CoreError) → IoError
  store_error : IoError

-- A write of the store goes through, or fails with the old snapshot or the new one in place.
pub data SaveOutcome : Type 0 where
  saved failed_before failed_after : SaveOutcome

-- The keys are checked as `SeqKey` checks them.
unfoldable pub check_keys : Counters → Result CoreError (Unit {0})
unfolding try_new_key
check_keys [] = ok tt
check_keys ((k, n) ∷ m) = try_new_key k >>= λ key. check_keys m

-- The leading version byte of a snapshot advances the version cell, and never takes it back.
abbrev pub raised : ℕ → ℕ → ℕ
raised version active = if ltb active version then version else active

abbrev pub is_less : Ordering → Bool
is_less lt = true
is_less _ = false

module _ {L S B : Type 0} where
  abbrev pub log_id_of : Option (StoredSnapshot L S B) → Option L
  log_id_of none = none
  log_id_of (some p) = p.meta.last_log_id

  -- The `last_log_id` of the snapshot that is published.
  abbrev pub published : Core L S B → Option L
  published core = log_id_of core.current_snapshot

  abbrev pub adopt : Snapshot L S → Core L S B → Core L S B
  adopt p core = record core {
    current_value = p.current_value;
    last_applied = p.last_applied;
    last_membership = p.last_membership;
    dense = p.dense;
    dense_cap = if p.dense_cap == 0 then core.dense_cap else p.dense_cap;
    leases = p.leases;
  }

  abbrev pub publish : SnapMeta L S → Frame B → Core L S B → Core L S B
  publish meta snapshot_data core = record core {
    current_snapshot = some (record { meta = meta; snapshot_data = snapshot_data });
  }

  abbrev pub snapshot_of : Core L S B → Snapshot L S
  snapshot_of core = record {
    current_value = core.current_value;
    last_applied = core.last_applied;
    last_membership = core.last_membership;
    dense = core.dense;
    dense_cap = core.dense_cap;
    leases = core.leases;
  }

  abbrev pub meta_of : Core L S B → SnapMeta L S
  meta_of core = record { last_log_id = core.last_applied; last_membership = core.last_membership }

module _ {L S B : Type 0} where
  unfoldable pub decode_payload : Codecs L S B → Frame B → Result IoError (Snapshot L S)
  unfolding decode_version decode_framed
  decode_payload c f =
      map_err codec_io_error
        (decode_framed (decode_version c) min_readable_version max_readable_version f)

  unfoldable pub encode_payload : Codecs L S B → ℕ → Snapshot L S → Result IoError (Frame B)
  unfolding encode_version encode_framed
  encode_payload c v p = map_err codec_io_error (encode_framed (encode_version c) v p)

  unfoldable pub decode_stored : Codecs L S B → Frame B → Result IoError (PersistedSnapshot L S B)
  unfolding decode_envelope decode_framed
  decode_stored c f =
      map_err codec_io_error
        (decode_framed (decode_envelope c) min_readable_version max_readable_version f)

  unfoldable pub encode_stored :
      Codecs L S B → ℕ → SnapMeta L S → Frame B → Result IoError (Frame B)
  unfolding encode_envelope encode_framed
  encode_stored c v meta snapshot_data =
      map_err codec_io_error (
        encode_framed (encode_envelope c) v (record { meta = meta; snapshot_data = snapshot_data }))

module _ {L : Type 0} ⦃o : Ord L⦄ where
  unfoldable pub supersedes_published : Option L → Option L → Bool
  supersedes_published incoming none = true
  supersedes_published none (some p) = false
  supersedes_published (some i) (some p) = not (is_less (o.cmp i p))

  abbrev pub same_log_id : Option L → Option L → Bool
  same_log_id none none = true
  same_log_id (some a) (some b) = same a b
  same_log_id _ _ = false
