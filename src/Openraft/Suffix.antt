-- ===== src/Openraft/Suffix.antt =====
-- A snapshot in place of the log before it, and the entries after it.
use tsoracle.Prelude.{◌≤◌, ◌≡◌, ap, true, List, Result, ok, All}
use tsoracle.BTreeMap.Ord.{Ord}
use tsoracle.Openraft.Entries.{Entry, Raft}
use tsoracle.Openraft.Apply.{StoredSnapshot, StateMachine, apply}
use tsoracle.Openraft.Codec.{Codecs}
use tsoracle.Openraft.Snapshot.{IoError, SaveOutcome, saved, supersedes_published, published}
use tsoracle.Openraft.Machine.{build_snapshot, install_snapshot}
use tsoracle.Openraft.Invariant.{IsState, IsEntry, apply-IsState}
use tsoracle.Openraft.Replay.{view, apply-view}
use tsoracle.Openraft.Install.{install-build}

module _ {L M S B : Type 0} ⦃o : Ord L⦄ (r : Raft L M S) (c : Codecs L S B) where
  abbrev pub Replays :
      List (Entry L M)
      → StateMachine L S B
      → Result IoError (Unit {0}) × StateMachine L S B
      → Type 0
  Replays es s x =
      (x.0 ≡ ok tt)
      × ((apply r es x.1).0 ≡ (apply r es s).0)
      × (view (apply r es x.1).1 ≡ view (apply r es s).1)

  -- `s` has applied a log of valid entries from a start that is in order and has room, and a build
  -- answers a snapshot. A member of no newer format version, of the same cap, whose published snapshot is
  -- not newer than the last entry of `s`: it takes the snapshot, and then answers every further entry as
  -- `s` does and ends in the same replicated state, as if it had applied the whole log.
  pub snapshot_replay :
      (log es : List (Entry L M)) (genesis s' f : StateMachine L S B) (w : SaveOutcome)
      (snap : StoredSnapshot L S B)
      → All IsEntry log
      → IsState genesis
      → build_snapshot c w (apply r log genesis).1 (apply r log genesis).1 ≡ (ok snap, s')
      → f.active_write_version ≤ (apply r log genesis).1.active_write_version
      → f.core.dense_cap ≡ (apply r log genesis).1.core.dense_cap
      → supersedes_published (apply r log genesis).1.core.last_applied (published f.core) ≡ true
      → Replays es (apply r log genesis).1 (install_snapshot c saved snap.meta snap.snapshot_data f)
  snapshot_replay log es genesis s' f w snap valid q h older room newer =
      let s = (apply r log genesis).1 in
      let (done, same_view) =
        install-build c w s s' f snap (apply-IsState r log genesis valid q) h older room newer in
      let same_after =
        apply-view r es (install_snapshot c saved snap.meta snap.snapshot_data f).1 s same_view in
      (done, ap (λ x. x.0) same_after, ap (λ x. x.1) same_after)
