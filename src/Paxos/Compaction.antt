-- ===== src/Paxos/Compaction.antt =====
-- A compacted log against the log it stands for, and the nonces that a restart may use.
use tsoracle.Prelude.{ℕ, max, ◌≡◌, refl, List, [], ◌∷◌, ◌++◌, map, All, arith}
use tsoracle.BTreeMap.{get}
use tsoracle.Paxos.{
  HighWaterCommand, create, LogEntry, decided, undecided, snapshotted, trimmed, stop_sign,
  ApplyState, new_state, drain_entries, applied_barrier_seq, Handle, or_none, logged_seq,
  max_seq_of, max_logged_barrier_seq,
}
use tsoracle.Paxos.Folds.{
  IsLogged, value_of, applied_of, highest, drain_value, drain_seq, created, highest-append,
}

-- Two states answer every read alike.
abbrev pub SameReads : ApplyState → ApplyState → Type 0
SameReads s t =
    (s.high_water ≡ t.high_water)
    × ((node : ℕ) → applied_barrier_seq node s ≡ applied_barrier_seq node t)

decided-IsLogged :
    (cs : List HighWaterCommand) (es : List LogEntry)
    → All IsLogged es
    → All IsLogged (map decided cs ++ es)
decided-IsLogged [] es h = h
decided-IsLogged (c ∷ cs) es h = (tt, decided-IsLogged cs es h)

-- A node that reads a snapshot of the commands in place of them, and then further entries of any kind
-- whose snapshots hold maps, ends in a state that answers every read as after the full log, from
-- whatever state it started.
pub drain-compacted :
    (cs : List HighWaterCommand) (es : List LogEntry) (s : ApplyState)
    → All IsLogged es
    → SameReads
        (drain_entries (snapshotted (create cs) ∷ es) s)
        (drain_entries (map decided cs ++ es) s)
drain-compacted cs es s h =
    let (same_value, same_seq, logged) = created cs in
    (
      ground (
        arith,
        drain_value (snapshotted (create cs) ∷ es) s,
        drain_value (map decided cs ++ es) s,
        highest-append value_of (map decided cs) es,
        same_value,
      ),
      λ node. ground (
        arith,
        drain_seq node (snapshotted (create cs) ∷ es) s (logged, h),
        drain_seq node (map decided cs ++ es) s (decided-IsLogged cs es h),
        highest-append (applied_of node) (map decided cs) es,
        same_seq node,
      ),
    )

-- The entry once the cluster has decided it.
abbrev pub decide : LogEntry → LogEntry
decide (undecided c) = decided c
decide e = e

decide-IsLogged : (es : List LogEntry) → All IsLogged es → All IsLogged (map decide es)
decide-IsLogged [] h = tt
decide-IsLogged (undecided c ∷ es) h = (tt, decide-IsLogged es h.1)
decide-IsLogged (decided c ∷ es) h = (tt, decide-IsLogged es h.1)
decide-IsLogged (snapshotted p ∷ es) h = (h.0, decide-IsLogged es h.1)
decide-IsLogged (trimmed ∷ es) h = (tt, decide-IsLogged es h.1)
decide-IsLogged (stop_sign ∷ es) h = (tt, decide-IsLogged es h.1)

logged_decide : (j : ℕ) (e : LogEntry) → applied_of j (decide e) ≡ logged_seq j e
logged_decide j (undecided c) = refl
logged_decide j (decided c) = refl
logged_decide j (snapshotted p) = refl
logged_decide j trimmed = refl
logged_decide j stop_sign = refl

max_seq_lem :
    (j : ℕ) (es : List LogEntry) (m : ℕ)
    → max_seq_of j es m ≡ max m (highest (applied_of j) (map decide es))
max_seq_lem j [] m = ground arith
max_seq_lem j (e ∷ es) m =
    ground (arith, max_seq_lem j es (max m (logged_seq j e)), logged_decide j e)

-- The seed of the barrier nonces, from a log whose snapshots hold maps: it is the highest barrier of the
-- node that is applied once everything in the log is decided, the entries whose decision was lost in a
-- crash included.
pub seed_lem :
    (h : Handle) (node : ℕ)
    → All IsLogged (or_none h.entries)
    → applied_barrier_seq node (drain_entries (map decide (or_none h.entries)) new_state)
      ≡ max_logged_barrier_seq h node
unfolding max_logged_barrier_seq applied_barrier_seq get
seed_lem h node logged = ground (
  arith,
  drain_seq node (map decide (or_none h.entries)) new_state
      (decide-IsLogged (or_none h.entries) logged),
  max_seq_lem node (or_none h.entries) 0,
)
