-- ===== src/Paxos.antt =====
-- crates/tsoracle-driver-paxos/src: the log entries and the snapshot (log_entry.rs), the fold of decided
-- entries (state_machine.rs), the snapshot policy (snapshot_policy.rs) and the apply step (apply.rs).
-- What omnipaxos answers is a parameter; a hash map is a map with ascending keys.
pub mod Ledger
pub mod Folds
pub mod Compaction
mod Tests
use tsoracle.Prelude.{
  ℕ, ◌+◌, max, Bool, true, false, leb, ltb, ◌==◌, if◌then◌else◌, Option, none, some, List, [], ◌∷◌,
}
use tsoracle.BTreeMap.{BTreeMap, nat_ord, get, insert}
use tsoracle.Consensus.{AdvancePayload, merge}

pub data HighWaterCommand : Type 0 where
  advance : (payload : AdvancePayload) → HighWaterCommand
  barrier : (node seq : ℕ) → HighWaterCommand

-- Per node, the highest barrier that is applied.
abbrev pub Barriers : Type 0
Barriers = BTreeMap ℕ ℕ

pub record HighWaterSnapshot : Type 0 where
  pub value : ℕ
  pub applied_barriers : Barriers

abbrev pub or_zero : Option ℕ → ℕ
or_zero none = 0
or_zero (some n) = n

-- `entry(node).or_insert(0)`, raised to `seq`
unfoldable pub raise_slot : ℕ → ℕ → Barriers → Barriers
raise_slot node seq ledger =
    let slot = or_zero (get node ledger) in insert node (if ltb slot seq then seq else slot) ledger

unfoldable pub fold_command : HighWaterCommand → HighWaterSnapshot → HighWaterSnapshot
unfolding merge raise_slot
fold_command (advance p) s = record s { value = merge p s.value }
fold_command (barrier node seq) s = record s {
  applied_barriers = raise_slot node seq s.applied_barriers;
}

unfoldable pub create_from : HighWaterSnapshot → List HighWaterCommand → HighWaterSnapshot
unfolding fold_command
create_from s [] = s
create_from s (c ∷ cs) = create_from (fold_command c s) cs

unfoldable pub create : List HighWaterCommand → HighWaterSnapshot
unfolding create_from
create cs = create_from (record { value = 0; applied_barriers = [] }) cs

unfoldable pub merge_barriers : Barriers → Barriers → Barriers
unfolding raise_slot
merge_barriers ledger [] = ledger
merge_barriers ledger ((node, seq) ∷ other) = merge_barriers (raise_slot node seq ledger) other

unfoldable pub merge_snapshot : HighWaterSnapshot → HighWaterSnapshot → HighWaterSnapshot
unfolding merge_barriers
merge_snapshot s other = record {
  value = max s.value other.value;
  applied_barriers = merge_barriers s.applied_barriers other.applied_barriers;
}

-- What omnipaxos reads from its log.
pub data LogEntry : Type 0 where
  decided undecided : (c : HighWaterCommand) → LogEntry
  snapshotted : (s : HighWaterSnapshot) → LogEntry
  trimmed stop_sign : LogEntry

pub record ApplyState : Type 0 where
  pub high_water : ℕ
  pub applied_barriers : Barriers

abbrev pub new_state : ApplyState
new_state = record { high_water = 0; applied_barriers = [] }

unfoldable pub applied_barrier_seq : ℕ → ApplyState → ℕ
applied_barrier_seq node s = or_zero (get node s.applied_barriers)

-- A store that is written only when the value grows.
abbrev pub grown : ℕ → ℕ → ℕ
grown new prev = if ltb prev new then new else prev

unfoldable pub drain_entry : LogEntry → ApplyState → ApplyState
unfolding merge raise_slot merge_barriers
drain_entry (decided (advance p)) s = record s {
  high_water = grown (merge p s.high_water) s.high_water;
}
drain_entry (decided (barrier node seq)) s = record s {
  applied_barriers = raise_slot node seq s.applied_barriers;
}
drain_entry (snapshotted p) s = record {
  high_water = grown p.value s.high_water;
  applied_barriers = merge_barriers s.applied_barriers p.applied_barriers;
}
drain_entry (undecided c) s = s
drain_entry trimmed s = s
drain_entry stop_sign s = s

unfoldable pub drain_entries : List LogEntry → ApplyState → ApplyState
unfolding drain_entry
drain_entries [] s = s
drain_entries (e ∷ es) s = drain_entries es (drain_entry e s)

-- What omnipaxos answers: the decided index, the decided entries from an index on, and all entries.
pub record Handle : Type 0 where
  pub decided_idx : ℕ
  pub decided_suffix : ℕ → Option (List LogEntry)
  pub entries : Option (List LogEntry)

abbrev pub or_none : Option (List LogEntry) → List LogEntry
or_none none = []
or_none (some es) = es

-- The decided index, the new cursor, and the state.
unfoldable pub drain_decided_into : Handle → ℕ → ApplyState → ℕ × ℕ × ApplyState
unfolding drain_entries
drain_decided_into h cursor s =
    if leb h.decided_idx cursor
    then (h.decided_idx, cursor, s)
    else (h.decided_idx, h.decided_idx, drain_entries (or_none (h.decided_suffix cursor)) s)

abbrev pub barrier_of : ℕ → HighWaterCommand → ℕ
barrier_of node (barrier appended seq) = if appended == node then seq else 0
barrier_of node (advance p) = 0

-- What an entry of the log says of the node's barriers.
abbrev pub logged_seq : ℕ → LogEntry → ℕ
logged_seq node (decided c) = barrier_of node c
logged_seq node (undecided c) = barrier_of node c
logged_seq node (snapshotted p) = or_zero (get node p.applied_barriers)
logged_seq node _ = 0

abbrev pub max_seq_of : ℕ → List LogEntry → ℕ → ℕ
max_seq_of node [] max_seq = max_seq
max_seq_of node (e ∷ es) max_seq = max_seq_of node es (max max_seq (logged_seq node e))

unfoldable pub max_logged_barrier_seq : Handle → ℕ → ℕ
max_logged_barrier_seq h node = max_seq_of node (or_none h.entries) 0

pub record SnapshotPolicy : Type 0 where
  pub every_n_decided : ℕ
  pub last_snapshot_at : ℕ

unfoldable pub rebase : ℕ → SnapshotPolicy → SnapshotPolicy
rebase decided_idx p = record p { last_snapshot_at = decided_idx }

-- The sum is within `u64` for the indices of a log.
unfoldable pub should_snapshot : ℕ → SnapshotPolicy → Bool × SnapshotPolicy
should_snapshot decided_idx p =
    if p.every_n_decided == 0
    then (false, p)
    else if leb (p.last_snapshot_at + p.every_n_decided) decided_idx
    then (true, record p { last_snapshot_at = decided_idx })
    else (false, p)

-- The index that omnipaxos is asked to snapshot at, if it is.
abbrev pub maybe_snapshot : SnapshotPolicy → ℕ → Option ℕ × SnapshotPolicy
unfolding should_snapshot
maybe_snapshot p decided_idx =
    let (due, q) = should_snapshot decided_idx p in (if due then some decided_idx else none, q)

pub record ApplyEngine : Type 0 where
  pub apply_state : ApplyState
  pub policy : SnapshotPolicy

-- The new cursor, and the engine.
unfoldable pub recover : Handle → ℕ → ApplyEngine → ℕ × ApplyEngine
unfolding drain_decided_into rebase
recover h cursor e =
    let (decided_idx, cursor', s) = drain_decided_into h cursor e.apply_state in
    (cursor', record { apply_state = s; policy = rebase cursor' e.policy })

-- What is asked of omnipaxos, the new cursor, and the engine.
unfoldable pub apply_step : Handle → ℕ → ApplyEngine → Option ℕ × ℕ × ApplyEngine
unfolding drain_decided_into maybe_snapshot
apply_step h cursor e =
    let (decided_idx, cursor', s) = drain_decided_into h cursor e.apply_state in
    let (request, p) = maybe_snapshot e.policy decided_idx in
    (request, cursor', record { apply_state = s; policy = p })
