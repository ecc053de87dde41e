-- ===== src/Openraft/Tests.antt =====
-- The theorems at concrete state machines: log ids are numbers with the term in the tens, a membership
-- is its nodes, and a body is the layout it encodes.
use mathlib.Core.Path.{subst}
use tsoracle.Prelude.{
  ℕ, ◌/◌, ◌≡◌, refl, ap, Option, none, some, List, [], ◌∷◌, ok, All, false, arith,
}
use tsoracle.BTreeMap.{nat_ord, bytes_ord, cmp_bytes, get, insert, contains_key}
use tsoracle.Seq.{SeqKey, try_new_key}
use tsoracle.Lease.{LeaseRecord}
use tsoracle.Consensus.{merge}
use tsoracle.Openraft.Entries.{
  DenseAdvance, HighWaterCommand, EntryPayload, blank, normal, membership, Entry, Raft,
}
use tsoracle.Openraft.Counters.{Counters, advance_batch, fold_batch, commit_scratch, new_keys}
use tsoracle.Openraft.Batch.{granted, singles, batch-singles}
use tsoracle.Openraft.Apply.{SnapMeta, StoredSnapshot, StateMachine, apply, apply_entry, is_subset}
use tsoracle.Openraft.Codec.{
  SnapshotV4, SnapshotV5, Snapshot, PersistedSnapshot, Postcard, Codecs, is_lease_set,
  encode_framed, encode_version, encode_envelope,
}
use tsoracle.Openraft.Snapshot.{
  saved, failed_after, check_keys, supersedes_published, encode_payload, decode_payload,
  encode_stored, snapshot_of,
}
use tsoracle.Openraft.Machine.{build_snapshot, install_snapshot, commit_snapshot, with_store}
use tsoracle.Openraft.RoundTrip.{as_stored, decode-encode_payload}
use tsoracle.Openraft.Invariant.{IsEntry, IsState, apply-IsState}
use tsoracle.Openraft.Suffix.{Replays, snapshot_replay}
use tsoracle.Openraft.Events.{Event, applies, copy, builds, installs, Life, live}
use tsoracle.Openraft.Published.{Newer, live-Newer}
use tsoracle.Openraft.Restart.{Recovers, newborn, restart-live}

abbrev pub raft : Raft ℕ (List ℕ) (List ℕ)
raft = record { term = λ l. l / 10; new_stored = λ l m. m; no_membership = []; node_ids = λ s. s }

pub data Body : Type 0 where
  body_v4 : SnapshotV4 ℕ (List ℕ) → Body
  body_v5 : SnapshotV5 ℕ (List ℕ) → Body
  body_v7 : Snapshot ℕ (List ℕ) → Body
  body_envelope : SnapMeta ℕ (List ℕ) → ℕ → Body → Body

abbrev pub or_body : Body → Option Body → Body
or_body b none = b
or_body b (some c) = c

-- A codec from a constructor and the reader that undoes it.
abbrev pub codec_of :
    {A : Type 0} (wrap : A → Body) (read : Body → Option A)
    → ((a : A) → read (wrap a) ≡ some a)
    → Postcard Body A
codec_of {A = A} wrap read back = record {
  to_stdvec = λ a. some (wrap a);
  from_bytes = read;
  round_trip = λ a b h. subst (λ x. read x ≡ some a) (ap (or_body b) h) (back a);
}

abbrev read_v4 : Body → Option (SnapshotV4 ℕ (List ℕ))
read_v4 (body_v4 a) = some a
read_v4 _ = none

abbrev read_v5 : Body → Option (SnapshotV5 ℕ (List ℕ))
read_v5 (body_v5 a) = some a
read_v5 _ = none

abbrev read_v7 : Body → Option (Snapshot ℕ (List ℕ))
read_v7 (body_v7 a) = some a
read_v7 _ = none

abbrev read_envelope : Body → Option (PersistedSnapshot ℕ (List ℕ) Body)
read_envelope (body_envelope m v b) =
    some (record { meta = m; snapshot_data = record { version = v; body = b } })
read_envelope _ = none

abbrev wrap_envelope : PersistedSnapshot ℕ (List ℕ) Body → Body
wrap_envelope p = body_envelope p.meta p.snapshot_data.version p.snapshot_data.body

abbrev pub codecs : Codecs ℕ (List ℕ) Body
codecs = record {
  v4 = codec_of body_v4 read_v4 (λ a. refl);
  v5 = codec_of body_v5 read_v5 (λ a. refl);
  v7 = codec_of body_v7 read_v7 (λ a. refl);
  envelope = codec_of wrap_envelope read_envelope (λ a. refl);
}

abbrev pub key_a : SeqKey
key_a = record { bytes = 97 ∷ [] }

abbrev pub key_b : SeqKey
key_b = record { bytes = 98 ∷ [] }

abbrev pub take_a : ℕ → DenseAdvance
take_a n = record { key = key_a; count = n }

abbrev pub take_b : ℕ → DenseAdvance
take_b n = record { key = key_b; count = n }

abbrev counters : Counters
counters = (key_a.bytes, 5) ∷ []

batch_run :
    granted (advance_batch 2 (take_a 2 ∷ take_b 1 ∷ take_a 3 ∷ []) counters)
    ≡ some (5 ∷ 0 ∷ 7 ∷ [], (key_a.bytes, 10) ∷ (key_b.bytes, 1) ∷ [])
unfolding advance_batch fold_batch commit_scratch new_keys contains_key get insert cmp_bytes
batch_run = refl

batch_refused : (advance_batch 1 (take_a 2 ∷ take_b 1 ∷ []) counters).1 ≡ counters
unfolding advance_batch fold_batch commit_scratch new_keys contains_key get insert cmp_bytes
batch_refused = refl

batch-singles_example :
    (granted (advance_batch 2 (take_a 2 ∷ take_b 1 ∷ take_a 3 ∷ []) counters)
      ≡ singles 2 (take_a 2 ∷ take_b 1 ∷ take_a 3 ∷ []) counters)
    × (singles 2 (take_a 2 ∷ take_b 1 ∷ take_a 3 ∷ []) counters ≡ none
        → (advance_batch 2 (take_a 2 ∷ take_b 1 ∷ take_a 3 ∷ []) counters).1 ≡ counters)
batch-singles_example =
    batch-singles 2 (take_a 2 ∷ take_b 1 ∷ take_a 3 ∷ []) counters tt (omega arith)

abbrev pub lease : LeaseRecord
lease = record {
  lease_id = 1;
  holder = 7 ∷ [];
  holder_epoch = 1;
  ttl_ms = 100;
  ts_upper_bound = 500;
  expires_at_ms = 600;
  superseded = false;
}

abbrev pub entry : ℕ → EntryPayload (List ℕ) → Entry ℕ (List ℕ)
entry l p = record { log_id = l; payload = p }

abbrev pub log : List (Entry ℕ (List ℕ))
log =
    entry 11 (membership (1 ∷ 2 ∷ []))
    ∷ entry 12 (normal (HighWaterCommand.set_format_version 7 (1 ∷ 2 ∷ 3 ∷ [])))
    ∷ entry 13 (normal (HighWaterCommand.advance (record { at_least = 40 })))
    ∷ entry 14 (normal (HighWaterCommand.advance_dense_batch (take_a 2 ∷ take_b 1 ∷ [])))
    ∷ entry 15 (normal (HighWaterCommand.set_leases 1 (lease ∷ [])))
    ∷ entry 21 (normal (HighWaterCommand.set_leases 1 []))
    ∷ []

abbrev pub genesis : StateMachine ℕ (List ℕ) Body
genesis = newborn raft codecs 4

abbrev later : List (Entry ℕ (List ℕ))
later =
    entry 22 (normal (HighWaterCommand.advance_dense (take_a 4)))
    ∷ entry 23 (normal (HighWaterCommand.set_leases 2 []))
    ∷ []

abbrev snapshot : Snapshot ℕ (List ℕ)
snapshot = record {
  current_value = 40;
  last_applied = some 21;
  last_membership = 1 ∷ 2 ∷ [];
  dense = (key_a.bytes, 2) ∷ (key_b.bytes, 1) ∷ [];
  dense_cap = 10000;
  leases = lease ∷ [];
}

abbrev stored : StoredSnapshot ℕ (List ℕ) Body
stored = record {
  meta = record { last_log_id = some 21; last_membership = 1 ∷ 2 ∷ [] };
  snapshot_data = record { version = 7; body = body_v7 snapshot };
}

abbrev pub leader : StateMachine ℕ (List ℕ) Body
leader = (apply raft log genesis).1

leader_run : snapshot_of leader.core ≡ snapshot
unfolding apply apply_entry is_subset merge advance_batch fold_batch commit_scratch new_keys
    contains_key get insert cmp_bytes
leader_run = refl

build_run : (build_snapshot codecs saved leader leader).0 ≡ ok stored
unfolding apply apply_entry is_subset merge advance_batch fold_batch commit_scratch new_keys
    contains_key get insert cmp_bytes build_snapshot encode_payload encode_stored encode_framed
    encode_version encode_envelope commit_snapshot supersedes_published
build_run = refl

decode-encode_payload_example :
    (decode_payload codecs stored.snapshot_data ≡ ok (as_stored codecs 7 snapshot))
    × (stored.snapshot_data.version ≡ 7)
unfolding is_lease_set encode_payload encode_framed encode_version
decode-encode_payload_example =
    decode-encode_payload codecs 7 snapshot stored.snapshot_data refl refl

log-IsEntry : All IsEntry log
unfolding try_new_key is_lease_set
log-IsEntry = (tt, (tt, (tt, ((refl, (refl, tt)), (refl, (refl, tt))))))

apply-IsState_example : IsState leader
unfolding check_keys is_lease_set
apply-IsState_example = apply-IsState raft log genesis log-IsEntry ((tt, (omega arith), refl), refl)

snapshot_replay_example :
    Replays raft codecs later leader
      (install_snapshot codecs saved stored.meta stored.snapshot_data genesis)
unfolding apply apply_entry is_subset merge advance_batch fold_batch commit_scratch new_keys
    contains_key get insert cmp_bytes build_snapshot encode_payload encode_stored encode_framed
    encode_version encode_envelope commit_snapshot supersedes_published check_keys is_lease_set
snapshot_replay_example =
    snapshot_replay raft codecs log later genesis (build_snapshot codecs saved leader leader).1
      genesis saved stored log-IsEntry ((tt, (omega arith), refl), refl) refl (omega arith) refl
      refl

-- An install overtakes a build that has its copy already, and a write fails with the new bytes in place.
abbrev events : List (Event ℕ (List ℕ) (List ℕ) Body)
events =
    applies (entry 1 blank ∷ [])
    ∷ copy
    ∷ installs saved stored.meta stored.snapshot_data
    ∷ builds saved
    ∷ applies later
    ∷ copy
    ∷ builds failed_after
    ∷ []

abbrev newborn_life : Life ℕ (List ℕ) Body
newborn_life = record { past = genesis; now = genesis }

live-Newer_example : Newer genesis (live raft codecs events newborn_life).now
live-Newer_example = live-Newer raft codecs events newborn_life

restart-live_example :
    Recovers raft codecs
      (live raft codecs events newborn_life).now
      (with_store raft codecs (live raft codecs events newborn_life).now.store 4)
unfolding try_new_key is_lease_set
restart-live_example =
    restart-live raft codecs events 4 4
      ((tt, tt), (tt, (tt, (tt, ((refl, (refl, tt)), (tt, (tt, tt)))))))
