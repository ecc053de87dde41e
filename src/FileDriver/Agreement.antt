-- ===== src/FileDriver/Agreement.antt =====
-- A batch on the file driver against the same batch on the replicated state machine.
use mathlib.Core.Path.{subst}
use tsoracle.Prelude.{
  ℕ, ◌+◌, ◌≤◌, ◌≡◌, refl, sym, ap, ◌∙◌, Bool, true, false, ltb, if◌then◌else◌, Option, none, some,
  List, [], ◌∷◌, map, Result, ok, err, ◌>>=◌, ◌>>◌, fail_if, ok_or, checked_add_u64, arith,
  Bool-cases, inl, inr,
}
use tsoracle.BTreeMap.{bytes_ord, get, insert, contains_key, len}
use tsoracle.Seq.{SeqKey}
use tsoracle.Consensus.{ConsensusError, seq_key_cardinality_exceeded, seq_overflow}
use tsoracle.FileDriver.{
  Counters, DenseState, FileDriver, WriteOutcome, written, failed_before_rename,
  failed_after_rename, store_dense,
}
use tsoracle.FileDriver.Batch.{
  new_keys, fold_entries, push, overlay, next_batch, store_batch, running_value,
  advance_dense_batch,
}
use tsoracle.Openraft.Entries.{ApplyOutcome, DenseAdvance, dense_batch_cardinality_exceeded}
use tsoracle.Openraft.Counters as Replicated
use tsoracle.Openraft.Driver.{batch_starts, to_entry}

new_keys_lem :
    (es : List (SeqKey × ℕ)) (d : Counters)
    → new_keys es d ≡ Replicated.new_keys (map to_entry es) d
unfolding new_keys Replicated.new_keys
new_keys_lem [] d = refl
new_keys_lem ((key, count) ∷ es) d =
    ap (λ rest. if contains_key key.bytes d then rest else insert key.bytes tt rest)
      (new_keys_lem es d)

overlay_lem : (s d : Counters) → overlay s d ≡ Replicated.commit_scratch s d
unfolding overlay Replicated.commit_scratch
overlay_lem [] d = refl
overlay_lem ((k, n) ∷ s) d = overlay_lem s (insert k n d)

running_lem : (a b : Option ℕ) → running_value a b ≡ Replicated.running_value a b
running_lem none none = refl
running_lem none (some m) = refl
running_lem (some n) b = refl

push_lem :
    (n : ℕ) (x : Result ConsensusError (List ℕ × Counters)) (y : Option (List ℕ × Counters))
    → x ≡ ok_or y seq_overflow
    → (x >>= push n) ≡ ok_or (Replicated.push n y) seq_overflow
push_lem n x none h = ap (λ z. z >>= push n) h
push_lem n x (some (starts, s)) h = ap (λ z. z >>= push n) h

step_lem :
    (n : ℕ) (o : Option ℕ) (f : ℕ → Result ConsensusError (List ℕ × Counters))
    (g : ℕ → Option (List ℕ × Counters))
    → ((next : ℕ) → f next ≡ ok_or (g next) seq_overflow)
    → (ok_or o seq_overflow >>= λ next. f next >>= push n)
      ≡ ok_or (Replicated.if_some o (λ next. Replicated.push n (g next))) seq_overflow
step_lem n none f g h = refl
step_lem n (some next) f g h = push_lem n (f next) (g next) (h next)

fold_lem :
    (es : List (SeqKey × ℕ)) (d s : Counters)
    → fold_entries d es s ≡ ok_or (Replicated.fold_batch d (map to_entry es) s) seq_overflow
unfolding fold_entries Replicated.fold_batch
fold_lem [] d s = refl
fold_lem ((key, count) ∷ es) d s =
    step_lem (running_value (get key.bytes s) (get key.bytes d))
      (checked_add_u64 (running_value (get key.bytes s) (get key.bytes d)) count)
      (λ next. fold_entries d es (insert key.bytes next s))
      (λ next. Replicated.fold_batch d (map to_entry es) (insert key.bytes next s))
      (λ next. fold_lem es d (insert key.bytes next s))
    ∙ ap
        (λ n.
          ok_or
            (Replicated.if_some (checked_add_u64 n count) (λ next.
              Replicated.push n
                (Replicated.fold_batch d (map to_entry es) (insert key.bytes next s))))
            seq_overflow)
        (running_lem (get key.bytes s) (get key.bytes d))

-- What the state machine answers and leaves, as the driver passes it on.
abbrev as_result : ApplyOutcome × Counters → Result ConsensusError (List ℕ × Counters)
as_result (outcome, d) = batch_starts outcome >>= λ starts. ok (starts, d)

abbrev overlaid : Counters → List ℕ × Counters → Result ConsensusError (List ℕ × Counters)
overlaid d (starts, scratch) = ok (starts, overlay scratch d)

outcome_lem :
    (d : Counters) (o : Option (List ℕ × Counters))
    → (ok_or o seq_overflow >>= overlaid d) ≡ as_result (Replicated.batch_outcome d o)
outcome_lem d none = refl
outcome_lem d (some (starts, s)) = ap (λ m. ok (starts, m)) (overlay_lem s d)

next_batch_lem :
    (es : List (SeqKey × ℕ)) (s : DenseState)
    → next_batch es s ≡ as_result (Replicated.advance_batch s.cap (map to_entry es) s.map)
unfolding next_batch Replicated.advance_batch
next_batch_lem es s =
    ap
      (λ keys.
        fail_if (ltb s.cap (len s.map + len keys)) (seq_key_cardinality_exceeded s.cap)
        >> (fold_entries s.map es [] >>= overlaid s.map))
      (new_keys_lem es s.map)
    ∙ decided (ltb s.cap (len s.map + len (Replicated.new_keys (map to_entry es) s.map)))
  where
    decided :
        (full : Bool)
        → (fail_if full (seq_key_cardinality_exceeded s.cap)
            >> (fold_entries s.map es [] >>= overlaid s.map))
          ≡ as_result (
              if full
              then (dense_batch_cardinality_exceeded s.cap, s.map)
              else Replicated.batch_outcome s.map
                  (Replicated.fold_batch s.map (map to_entry es) []))
    decided true = refl
    decided false =
        ap (λ x. x >>= overlaid s.map) (fold_lem es s.map [])
        ∙ outcome_lem s.map (Replicated.fold_batch s.map (map to_entry es) [])

-- The answer `y` and the counters `m` of the state machine, against what the file driver does.
abbrev pub Agrees :
    WriteOutcome
    → FileDriver
    → Result ConsensusError (List ℕ)
    → Counters
    → Result ConsensusError (List ℕ) × FileDriver
    → Type 0
Agrees written d y m (x, d') = (x ≡ y) × (d'.dense.map ≡ m)
Agrees w d y m (x, d') = d'.dense ≡ d.dense

-- A refusal moves no counter.
abbrev Unmoved : Counters → Result ConsensusError (List ℕ) → Counters → Type 0
Unmoved d (ok starts) m = Unit
Unmoved d (err e) m = m ≡ d

outcome-Unmoved :
    (d : Counters) (o : Option (List ℕ × Counters))
    → Unmoved d (batch_starts (Replicated.batch_outcome d o).0) (Replicated.batch_outcome d o).1
outcome-Unmoved d none = refl
outcome-Unmoved d (some o) = tt

batch-Unmoved :
    (cap : ℕ) (es : List DenseAdvance) (d : Counters)
    → Unmoved d
        (batch_starts (Replicated.advance_batch cap es d).0)
        (Replicated.advance_batch cap es d).1
unfolding Replicated.advance_batch
batch-Unmoved cap es d = elim (Bool-cases (ltb cap (len d + len (Replicated.new_keys es d)))) [
  | inl full ↦ rw full refl
  | inr free ↦ rw free (outcome-Unmoved d (Replicated.fold_batch d es []))
]

store-Agrees :
    (w : WriteOutcome) (d : FileDriver) (y : Result ConsensusError (List ℕ)) (m : Counters)
    → Unmoved d.dense.map y m
    → Agrees w d y m (store_batch w (y >>= λ starts. ok (starts, m)) d)
unfolding store_dense
store-Agrees written d (ok starts) m h = (refl, refl)
store-Agrees failed_before_rename d (ok starts) m h = refl
store-Agrees failed_after_rename d (ok starts) m h = refl
store-Agrees written d (err e) m h = (refl, sym h)
store-Agrees failed_before_rename d (err e) m h = refl
store-Agrees failed_after_rename d (err e) m h = refl

-- On counters that are within their cap: a batch on the file driver whose write goes through answers what
-- the replicated state machine answers to the same batch, and keeps the counters that it keeps; a batch
-- whose write fails keeps the counters in memory as they were.
pub batch-Agrees :
    (w : WriteOutcome) (es : List (SeqKey × ℕ)) (d : FileDriver)
    → len d.dense.map ≤ d.dense.cap
    → Agrees w d
        (batch_starts (Replicated.advance_batch d.dense.cap (map to_entry es) d.dense.map).0)
        (Replicated.advance_batch d.dense.cap (map to_entry es) d.dense.map).1
        (advance_dense_batch w es d)
unfolding advance_dense_batch Replicated.advance_batch Replicated.new_keys Replicated.fold_batch
    Replicated.commit_scratch
batch-Agrees written [] d h = ground arith
batch-Agrees failed_before_rename [] d h = refl
batch-Agrees failed_after_rename [] d h = refl
batch-Agrees w (e ∷ es) d h =
    let x = Replicated.advance_batch d.dense.cap (map to_entry (e ∷ es)) d.dense.map in
    subst (λ r. Agrees w d (batch_starts x.0) x.1 (store_batch w r d))
      (sym (next_batch_lem (e ∷ es) d.dense))
      (store-Agrees w d (batch_starts x.0) x.1
        (batch-Unmoved d.dense.cap (map to_entry (e ∷ es)) d.dense.map))
