-- ===== src/FileDriver/Batch.antt =====
-- `advance_dense_batch` of crates/tsoracle-driver-file/src/driver.rs.
use tsoracle.Prelude.{
  ℕ, ◌+◌, ltb, if◌then◌else◌, Option, none, some, List, [], ◌∷◌, Result, ok, err, ◌>>=◌, ◌>>◌,
  fail_if, ok_or, checked_add_u64,
}
use tsoracle.BTreeMap.{BTreeMap, bytes_ord, get, insert, contains_key, len}
use tsoracle.Seq.{SeqKey}
use tsoracle.Consensus.{ConsensusError, seq_key_cardinality_exceeded, seq_overflow}
use tsoracle.FileDriver.{Counters, DenseState, FileDriver, WriteOutcome, or_zero, store_dense}

-- The keys of the batch that have no counter, as a set.
unfoldable pub new_keys : List (SeqKey × ℕ) → Counters → BTreeMap (List ℕ) (Unit {0})
new_keys [] dense = []
new_keys ((key, count) ∷ entries) dense =
    let rest = new_keys entries dense in
    if contains_key key.bytes dense then rest else insert key.bytes tt rest

abbrev pub running_value : Option ℕ → Option ℕ → ℕ
running_value (some n) _ = n
running_value none stored = or_zero stored

abbrev pub push : ℕ → List ℕ × Counters → Result ConsensusError (List ℕ × Counters)
push start (starts, scratch) = ok (start ∷ starts, scratch)

unfoldable pub fold_entries :
    Counters → List (SeqKey × ℕ) → Counters → Result ConsensusError (List ℕ × Counters)
fold_entries dense [] scratch = ok ([], scratch)
fold_entries dense ((key, count) ∷ entries) scratch =
    let running = running_value (get key.bytes scratch) (get key.bytes dense) in
    ok_or (checked_add_u64 running count) seq_overflow >>= λ next.
    fold_entries dense entries (insert key.bytes next scratch) >>= push running

unfoldable pub overlay : Counters → Counters → Counters
overlay [] map = map
overlay ((k, n) ∷ scratch) map = overlay scratch (insert k n map)

-- The starts, and the map to write.
unfoldable pub next_batch :
    List (SeqKey × ℕ) → DenseState → Result ConsensusError (List ℕ × Counters)
unfolding new_keys fold_entries overlay
next_batch entries s = do
  fail_if (ltb s.cap (len s.map + len (new_keys entries s.map)))
      (seq_key_cardinality_exceeded s.cap)
  (starts, scratch) ← fold_entries s.map entries []
  ok (starts, overlay scratch s.map)

abbrev pub store_batch :
    WriteOutcome
    → Result ConsensusError (List ℕ × Counters)
    → FileDriver
    → Result ConsensusError (List ℕ) × FileDriver
store_batch w (err e) d = (err e, d)
store_batch w (ok (starts, new_map)) d = store_dense w new_map starts d

unfoldable pub advance_dense_batch :
    WriteOutcome → List (SeqKey × ℕ) → FileDriver → Result ConsensusError (List ℕ) × FileDriver
unfolding next_batch store_dense
advance_dense_batch w [] d = (ok [], d)
advance_dense_batch w (e ∷ entries) d = store_batch w (next_batch (e ∷ entries) d.dense) d
