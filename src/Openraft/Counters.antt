-- ===== src/Openraft/Counters.antt =====
-- The dense counters in state_machine.rs: one key, and a batch that moves all of its counters or none.
use tsoracle.Prelude.{
  ℕ, ◌+◌, not, leb, ltb, ◌&&◌, if◌then◌else◌, Option, none, some, List, [], ◌∷◌, checked_add_u64,
}
use tsoracle.BTreeMap.{BTreeMap, bytes_ord, get, insert, contains_key, len}
use tsoracle.Openraft.Entries.{
  DenseAdvance, ApplyOutcome, dense_advanced, dense_cardinality_exceeded, dense_overflow,
  dense_batch_advanced, dense_batch_cardinality_exceeded, dense_batch_overflow,
}

abbrev pub Counters : Type 0
Counters = BTreeMap (List ℕ) ℕ

abbrev pub or_zero : Option ℕ → ℕ
or_zero none = 0
or_zero (some n) = n

-- What the arm for `AdvanceDense` does once the counter's next value is known.
abbrev pub bumped : List ℕ → Counters → Option ℕ → ApplyOutcome × Counters
bumped k dense (some next) = (dense_advanced (or_zero (get k dense)), insert k next dense)
bumped k dense none = (dense_overflow, dense)

unfoldable pub advance_one : ℕ → DenseAdvance → Counters → ApplyOutcome × Counters
advance_one cap e dense =
    if not (contains_key e.key.bytes dense) && leb cap (len dense)
    then (dense_cardinality_exceeded cap, dense)
    else bumped e.key.bytes dense (checked_add_u64 (or_zero (get e.key.bytes dense)) e.count)

-- The keys of a batch that have no counter, as a set.
unfoldable pub new_keys : List DenseAdvance → Counters → BTreeMap (List ℕ) (Unit {0})
new_keys [] dense = []
new_keys (e ∷ es) dense =
    let rest = new_keys es dense in
    if contains_key e.key.bytes dense then rest else insert e.key.bytes tt rest

-- The scratch map first, then the counters, then 0.
abbrev pub running_value : Option ℕ → Option ℕ → ℕ
running_value (some n) _ = n
running_value none stored = or_zero stored

abbrev pub push : ℕ → Option (List ℕ × Counters) → Option (List ℕ × Counters)
push start none = none
push start (some (starts, scratch)) = some (start ∷ starts, scratch)

abbrev pub if_some {ℓ κ} : {A : Type ℓ} {B : Type κ} → Option A → (A → Option B) → Option B
if_some none f = none
if_some (some a) f = f a

-- The loop over the entries: the starts, and the scratch map; none on an overflow.
unfoldable pub fold_batch : Counters → List DenseAdvance → Counters → Option (List ℕ × Counters)
fold_batch dense [] scratch = some ([], scratch)
fold_batch dense (e ∷ es) scratch =
    let running = running_value (get e.key.bytes scratch) (get e.key.bytes dense) in
    if_some (checked_add_u64 running e.count)
      (λ next. push running (fold_batch dense es (insert e.key.bytes next scratch)))

-- The scratch map, written into the counters.
unfoldable pub commit_scratch : Counters → Counters → Counters
commit_scratch [] dense = dense
commit_scratch ((k, n) ∷ scratch) dense = commit_scratch scratch (insert k n dense)

abbrev pub batch_outcome : Counters → Option (List ℕ × Counters) → ApplyOutcome × Counters
batch_outcome dense none = (dense_batch_overflow, dense)
batch_outcome dense (some (starts, scratch)) =
    (dense_batch_advanced starts, commit_scratch scratch dense)

unfoldable pub advance_batch : ℕ → List DenseAdvance → Counters → ApplyOutcome × Counters
unfolding new_keys
advance_batch cap es dense =
    if ltb cap (len dense + len (new_keys es dense))
    then (dense_batch_cardinality_exceeded cap, dense)
    else batch_outcome dense (fold_batch dense es [])
