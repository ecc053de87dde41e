-- ===== src/Openraft/Machine.antt =====
-- The snapshots of state_machine.rs: committed, built, installed, and read back from the store.
use tsoracle.Prelude.{
  ℕ, Bool, true, false, not, if◌then◌else◌, Option, none, some, [], Result, ok, err, ◌>>=◌, ◌>>◌,
  fail_if, map_err,
}
use tsoracle.BTreeMap.Ord.{Ord}
use tsoracle.Openraft.Entries.{Raft}
use tsoracle.Openraft.Apply.{Frame, SnapMeta, StoredSnapshot, Core, StateMachine}
use tsoracle.Openraft.Codec.{Snapshot, Codecs}
use tsoracle.Openraft.Snapshot.{
  default_dense_cardinality_cap, check_keys, raised, published, adopt, publish, snapshot_of,
  meta_of, decode_payload, encode_payload, decode_stored, encode_stored, supersedes_published,
  same_log_id, IoError, SaveOutcome, disagreement, invalid_key, store_error, saved, failed_before,
  failed_after,
}

module _ {L S B : Type 0} where
  -- The write of the store, and the publication, for a snapshot that is not stale.
  abbrev pub save_and_publish :
      SaveOutcome
      → SnapMeta L S
      → Frame B
      → Frame B
      → (Core L S B → Core L S B)
      → StateMachine L S B
      → Result IoError Bool × StateMachine L S B
  save_and_publish saved meta snapshot_data envelope on_adopt s = (
    ok true,
    record s { core = publish meta snapshot_data (on_adopt s.core); store = some envelope },
  )
  save_and_publish failed_before meta snapshot_data envelope on_adopt s = (err store_error, s)
  save_and_publish failed_after meta snapshot_data envelope on_adopt s =
      (err store_error, record s { store = some envelope })

module _ {L S B : Type 0} ⦃o : Ord L⦄ where
  -- `commit_snapshot`: is the snapshot adopted? `on_adopt` changes the core under the same lock.
  unfoldable pub commit_snapshot :
      SaveOutcome
      → SnapMeta L S
      → Frame B
      → Frame B
      → (Core L S B → Core L S B)
      → StateMachine L S B
      → Result IoError Bool × StateMachine L S B
  unfolding supersedes_published
  commit_snapshot w meta snapshot_data envelope on_adopt s =
      if supersedes_published meta.last_log_id (published s.core)
      then save_and_publish w meta snapshot_data envelope on_adopt s
      else (ok false, s)

  -- What a build answers, once the commit is through or is dropped as stale.
  abbrev pub built :
      StoredSnapshot L S B
      → Result IoError Bool × StateMachine L S B
      → Result IoError (StoredSnapshot L S B) × StateMachine L S B
  built p (ok adopted, s) = (ok p, s)
  built p (err e, s) = (err e, s)

  abbrev pub commit_built :
      SaveOutcome
      → SnapMeta L S
      → Result IoError (Frame B × Frame B)
      → StateMachine L S B
      → Result IoError (StoredSnapshot L S B) × StateMachine L S B
  commit_built w meta (err e) s = (err e, s)
  commit_built w meta (ok (f, envelope)) s =
      built (record { meta = meta; snapshot_data = f })
        (commit_snapshot w meta f envelope (λ core. core) s)

  -- `build_snapshot`: the snapshot is taken from `past`, the state machine when the lock was held;
  -- it is committed to the one that is there after that.
  unfoldable pub build_snapshot :
      Codecs L S B
      → SaveOutcome
      → StateMachine L S B
      → StateMachine L S B
      → Result IoError (StoredSnapshot L S B) × StateMachine L S B
  unfolding encode_payload encode_stored
  build_snapshot c w past s =
      commit_built w (meta_of past.core)
        (encode_payload c past.active_write_version (snapshot_of past.core) >>= λ f.
          encode_stored c s.active_write_version (meta_of past.core) f >>= λ envelope.
          ok (f, envelope))
        s

  abbrev pub installed :
      Result IoError Bool × StateMachine L S B → Result IoError (Unit {0}) × StateMachine L S B
  installed (ok adopted, s) = (ok tt, s)
  installed (err e, s) = (err e, s)

  abbrev pub commit_installed :
      SaveOutcome
      → SnapMeta L S
      → Frame B
      → Snapshot L S
      → Result IoError (Frame B)
      → StateMachine L S B
      → Result IoError (Unit {0}) × StateMachine L S B
  commit_installed w meta f p (err e) s = (err e, s)
  commit_installed w meta f p (ok envelope) s =
      installed (commit_snapshot w meta f envelope (adopt p) s)

  -- The checks of a snapshot that comes in.
  abbrev pub checked_payload : Codecs L S B → SnapMeta L S → Frame B → Result IoError (Snapshot L S)
  checked_payload c meta f = do
    p ← decode_payload c f
    fail_if (not (same_log_id meta.last_log_id p.last_applied)) disagreement
    _ ← map_err invalid_key (check_keys p.dense)
    ok p

  abbrev pub raise : ℕ → StateMachine L S B → StateMachine L S B
  raise version s = record s { active_write_version = raised version s.active_write_version }

  abbrev pub install_checked :
      Codecs L S B
      → SaveOutcome
      → SnapMeta L S
      → Frame B
      → Result IoError (Snapshot L S)
      → StateMachine L S B
      → Result IoError (Unit {0}) × StateMachine L S B
  install_checked c w meta f (err e) s = (err e, s)
  install_checked c w meta f (ok p) s =
      let v = raised f.version s.active_write_version in
      commit_installed w meta f p (encode_stored c v meta f) (raise f.version s)

  unfoldable pub install_snapshot :
      Codecs L S B
      → SaveOutcome
      → SnapMeta L S
      → Frame B
      → StateMachine L S B
      → Result IoError (Unit {0}) × StateMachine L S B
  install_snapshot c w meta f s = install_checked c w meta f (checked_payload c meta f) s

  unfoldable pub get_current_snapshot : StateMachine L S B → Option (StoredSnapshot L S B)
  get_current_snapshot s = s.core.current_snapshot

module _ {L M S B : Type 0} ⦃o : Ord L⦄ (r : Raft L M S) where
  -- The core of a state machine that has seen no entry.
  abbrev pub new_core : ℕ → Core L S B
  new_core cap = record {
    current_value = 0;
    dense = [];
    dense_cap = cap;
    leases = [];
    last_applied = none;
    last_membership = r.no_membership;
    current_snapshot = none;
  }

  abbrev pub recovered : Codecs L S B → Frame B → ℕ → Result IoError (StateMachine L S B)
  recovered c f active = do
    p ← decode_stored c f
    payload ← decode_payload c p.snapshot_data
    ok (record {
      core =
          publish p.meta p.snapshot_data (adopt payload (new_core default_dense_cardinality_cap));
      active_write_version = raised f.version active;
      store = some f;
    })

  -- `with_store_and_active_version`, on what the store loads
  unfoldable pub with_store :
      Codecs L S B → Option (Frame B) → ℕ → Result IoError (StateMachine L S B)
  with_store c none active = ok (record {
    core = new_core default_dense_cardinality_cap;
    active_write_version = active;
    store = none;
  })
  with_store c (some f) active = recovered c f active
