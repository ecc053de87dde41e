-- ===== src/FileDriver/Handed.antt =====
-- The blocks of one key that a batch on the file driver gives out, and what it makes of the key's counter.
use mathlib.Core.Path.{subst}
use tsoracle.Prelude.{
  ◌∙◌, sym, ap, ℕ, ◌+◌, ◌≤◌, ◌≡◌, refl, ltb, if◌then◌else◌, Option, none, some, List, [], ◌∷◌,
  Result, ok, err, ◌>>=◌, ok_or, checked_add_u64, arith, ◌⊎◌, inl, inr, Bool-cases,
}
use tsoracle.BTreeMap.{
  bytes_ord, same, same_eq, get, insert, len, Sorted, Above, Above-Sorted, get-Above, get-insert,
  insert-Sorted,
}
use tsoracle.Seq.{SeqKey}
use tsoracle.Consensus.{ConsensusError, seq_overflow}
use tsoracle.FileDriver.{
  Counters, FileDriver, DenseState, WriteOutcome, written, failed_before_rename,
  failed_after_rename, or_zero, store_dense,
}
use tsoracle.FileDriver.Batch.{
  new_keys, running_value, push, fold_entries, overlay, next_batch, store_batch,
  advance_dense_batch,
}

abbrev pub value : List ℕ → Counters → ℕ
value k m = or_zero (get k m)

-- The blocks `(start, count)` of the key among those of a batch, in its order.
unfoldable pub own : List ℕ → List (SeqKey × ℕ) → List ℕ → List (ℕ × ℕ)
own k ((key, count) ∷ es) (start ∷ starts) =
    let rest = own k es starts in if same k key.bytes then (start, count) ∷ rest else rest
own k es starts = []

-- The blocks join without a gap from `n` to `m`.
abbrev pub Joins : (n m : ℕ) → List (ℕ × ℕ) → Type 0
Joins n m [] = n ≡ m
Joins n m ((s, c) ∷ bs) = (s ≡ n) × Joins (s + c) m bs

pub Joins-le : (n m : ℕ) (bs : List (ℕ × ℕ)) → Joins n m bs → n ≤ m
Joins-le n m [] h = omega (arith, h)
Joins-le n m ((s, c) ∷ bs) (h, rest) = omega (arith, h, Joins-le (s + c) m bs rest)

-- The counter in the scratch map, or else the one that is stored.
abbrev current : List ℕ → Counters → Counters → ℕ
current k scratch dense = running_value (get k scratch) (get k dense)

abbrev Folds :
    List ℕ → Counters → List (SeqKey × ℕ) → ℕ → Result ConsensusError (List ℕ × Counters) → Type 0
Folds k dense es n (ok (starts, scratch)) =
    Joins n (current k scratch dense) (own k es starts) × Sorted scratch
Folds k dense es n (err e) = Unit

entry-Folds :
    (k : List ℕ) (dense : Counters) (key : SeqKey) (count next : ℕ) (es : List (SeqKey × ℕ))
    (scratch : Counters) (r : Result ConsensusError (List ℕ × Counters))
    → next ≡ current key.bytes scratch dense + count
    → Folds k dense es (current k (insert key.bytes next scratch) dense) r
    → Folds k dense
        ((key, count) ∷ es)
        (current k scratch dense)
        (r >>= push (current key.bytes scratch dense))
unfolding own
entry-Folds k dense key count next es scratch (err e) h f = tt
entry-Folds k dense key count next es scratch (ok (starts, after)) h (f, o) =
    elim (Bool-cases (same k key.bytes)) [
      | inl mine ↦
          let at_counter : current key.bytes scratch dense ≡ current k scratch dense =
            ap (λ b. current b scratch dense) (sym (same_eq k key.bytes mine)) in
          let at_end : current k (insert key.bytes next scratch) dense ≡ next =
            ap (λ x. running_value x (get k dense)) (get-insert k key.bytes next scratch)
            ∙ rw mine refl in
          rw mine (
            (
              at_counter,
              subst (λ n. Joins n (current k after dense) (own k es starts)) (at_end ∙ h) f,
            ),
            o,
          )
      | inr other ↦
          let unmoved : current k (insert key.bytes next scratch) dense ≡ current k scratch dense =
            ap (λ x. running_value x (get k dense)) (get-insert k key.bytes next scratch)
            ∙ rw other refl in
          rw other (subst (λ n. Joins n (current k after dense) (own k es starts)) unmoved f, o)
    ]

fold-Folds :
    (k : List ℕ) (dense : Counters) (es : List (SeqKey × ℕ)) (scratch : Counters)
    → Sorted scratch
    → Folds k dense es (current k scratch dense) (fold_entries dense es scratch)
unfolding fold_entries own
fold-Folds k dense [] scratch o = (refl, o)
fold-Folds k dense ((key, count) ∷ es) scratch o =
    go (checked_add_u64 (current key.bytes scratch dense) count) refl (λ next.
      fold-Folds k dense es (insert key.bytes next scratch)
        (insert-Sorted key.bytes next scratch o))
  where
    go :
        (n : Option ℕ)
        → checked_add_u64 (current key.bytes scratch dense) count ≡ n
        → ((next : ℕ)
            → Folds k dense es
                (current k (insert key.bytes next scratch) dense)
                (fold_entries dense es (insert key.bytes next scratch)))
        → Folds k dense ((key, count) ∷ es) (current k scratch dense) (
            ok_or n seq_overflow >>= λ next.
            fold_entries dense es (insert key.bytes next scratch)
            >>= push (current key.bytes scratch dense))
    go none h rest = tt
    go (some next) h rest =
        entry-Folds k dense key count next es scratch
          (fold_entries dense es (insert key.bytes next scratch)) (ground (arith, h)) (rest next)

overlay-value :
    (k : List ℕ) (scratch m : Counters)
    → Sorted scratch
    → value k (overlay scratch m) ≡ current k scratch m
unfolding overlay get
overlay-value k [] m o = ground arith
overlay-value k ((j, n) ∷ scratch) m o =
    let rest = overlay-value k scratch (insert j n m) (Above-Sorted j scratch o) in
    elim (Bool-cases (same k j)) [
      | inl mine ↦
          let gone : get k scratch ≡ none =
            get-Above k scratch (subst (λ x. Above x scratch) (sym (same_eq k j mine)) o) in
          ground (arith, rest, get-insert k j n m, mine, gone)
      | inr other ↦ ground (arith, rest, get-insert k j n m, other)
    ]

abbrev Hands :
    List ℕ → List (SeqKey × ℕ) → Counters → Result ConsensusError (List ℕ × Counters) → Type 0
Hands k es m (ok (starts, new)) = Joins (value k m) (value k new) (own k es starts)
Hands k es m (err e) = Unit

next_batch-Hands :
    (k : List ℕ) (es : List (SeqKey × ℕ)) (s : DenseState) → Hands k es s.map (next_batch es s)
unfolding next_batch get
next_batch-Hands k es s = elim (Bool-cases (ltb s.cap (len s.map + len (new_keys es s.map)))) [
  | inl full ↦ rw full tt
  | inr free ↦ rw free (go (fold_entries s.map es []) (fold-Folds k s.map es [] tt))
]
  where
    go :
        (r : Result ConsensusError (List ℕ × Counters))
        → Folds k s.map es (value k s.map) r
        → Hands k es s.map (r >>= λ (starts, scratch). ok (starts, overlay scratch s.map))
    go (err e) f = tt
    go (ok (starts, scratch)) f = rw (overlay-value k scratch s.map f.1) f.0

-- What a batch does to the counter of `k`, in memory and in the file.
abbrev pub BatchSteps :
    List ℕ → List (SeqKey × ℕ) → FileDriver → Result ConsensusError (List ℕ) × FileDriver → Type 0
BatchSteps k es d (ok starts, d') =
    Joins (value k d.dense.map) (value k d'.dense.map) (own k es starts)
    × ((value k d'.dense_file.map ≡ value k d'.dense.map)
        ⊎ ((d'.dense ≡ d.dense) × (d'.dense_file ≡ d.dense_file)))
BatchSteps k es d (err e, d') =
    (d'.dense ≡ d.dense)
    × ((value k d'.dense_file.map ≡ value k d.dense_file.map)
        ⊎ (value k d.dense.map ≤ value k d'.dense_file.map))

store_batch-Steps :
    (k : List ℕ) (w : WriteOutcome) (es : List (SeqKey × ℕ)) (d : FileDriver)
    (r : Result ConsensusError (List ℕ × Counters))
    → Hands k es d.dense.map r
    → BatchSteps k es d (store_batch w r d)
unfolding store_dense
store_batch-Steps k w es d (err e) h = (refl, inl refl)
store_batch-Steps k written es d (ok (starts, new)) h = (h, inl refl)
store_batch-Steps k failed_before_rename es d (ok (starts, new)) h = (refl, inl refl)
store_batch-Steps k failed_after_rename es d (ok (starts, new)) h =
    (refl, inr (Joins-le (value k d.dense.map) (value k new) (own k es starts) h))

pub batch-Steps :
    (k : List ℕ) (w : WriteOutcome) (es : List (SeqKey × ℕ)) (d : FileDriver)
    → BatchSteps k es d (advance_dense_batch w es d)
unfolding advance_dense_batch own
batch-Steps k w [] d = (refl, inr (refl, refl))
batch-Steps k w (e ∷ es) d =
    store_batch-Steps k w (e ∷ es) d (next_batch (e ∷ es) d.dense)
      (next_batch-Hands k (e ∷ es) d.dense)
