-- ===== src/Paxos/Tests.antt =====
-- A log of two nodes, compacted, and drained from a state that is ahead of it.
use tsoracle.Prelude.{◌≡◌, refl, some, List, [], ◌∷◌, ◌++◌, map}
use tsoracle.BTreeMap.{get, insert}
use tsoracle.Consensus.{merge}
use tsoracle.Paxos.{
  HighWaterCommand, create, create_from, fold_command, raise_slot, merge_barriers, LogEntry,
  decided, undecided, snapshotted, ApplyState, new_state, drain_entry, drain_entries,
  applied_barrier_seq, Handle, or_none, max_logged_barrier_seq, drain_decided_into, ApplyEngine,
  apply_step, should_snapshot,
}
use tsoracle.Paxos.Compaction.{SameReads, drain-compacted, decide, seed_lem}

abbrev commands : List HighWaterCommand
commands =
    HighWaterCommand.advance (record { at_least = 40 })
    ∷ HighWaterCommand.barrier 1 3
    ∷ HighWaterCommand.barrier 2 9
    ∷ HighWaterCommand.advance (record { at_least = 30 })
    ∷ HighWaterCommand.barrier 1 5
    ∷ []

abbrev rest : List LogEntry
rest = decided (HighWaterCommand.barrier 1 6) ∷ undecided (HighWaterCommand.barrier 1 8) ∷ []

abbrev ahead : ApplyState
ahead = record { high_water = 35; applied_barriers = (2, 11) ∷ [] }

drain-compacted_example :
    SameReads
      (drain_entries (snapshotted (create commands) ∷ rest) ahead)
      (drain_entries (map decided commands ++ rest) ahead)
drain-compacted_example = drain-compacted commands rest ahead (tt, (tt, tt))

abbrev reopened : Handle
reopened = record {
  decided_idx = 6;
  decided_suffix = λ i. some (snapshotted (create commands) ∷ []);
  entries = some (snapshotted (create commands) ∷ rest);
}

seed_run : max_logged_barrier_seq reopened 1 ≡ 8
unfolding max_logged_barrier_seq create create_from fold_command raise_slot get insert
seed_run = refl

abbrev engine : ApplyEngine
engine = record {
  apply_state = ahead;
  policy = record { every_n_decided = 5; last_snapshot_at = 0 };
}

step_run : apply_step reopened 2 engine ≡ (
  some 6,
  6,
  record {
    apply_state = record { high_water = 40; applied_barriers = (1, 5) ∷ (2, 11) ∷ [] };
    policy = record { every_n_decided = 5; last_snapshot_at = 6 };
  },
)
unfolding apply_step drain_decided_into drain_entries drain_entry should_snapshot create create_from
    fold_command raise_slot merge_barriers merge get insert
step_run = refl

seed_lem_example :
    applied_barrier_seq 1 (drain_entries (map decide (or_none reopened.entries)) new_state)
    ≡ max_logged_barrier_seq reopened 1
unfolding create create_from fold_command raise_slot get insert
seed_lem_example = seed_lem reopened 1 ((refl, tt), (tt, (tt, tt)))
