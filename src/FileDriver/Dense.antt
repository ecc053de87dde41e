-- ===== src/FileDriver/Dense.antt =====
-- Sequences over failed writes and restarts: which blocks of one key are given out.
use mathlib.Core.Path.{subst}
use tsoracle.Prelude.{
  ◌∙◌, sym, ℕ, ◌+◌, ◌≤◌, ◌≡◌, refl, if◌then◌else◌, List, [], ◌∷◌, ◌++◌, Result, ok, err, arith, ◌⊎◌,
  inl, inr, Bool-cases, ap,
}
use tsoracle.BTreeMap.{bytes_ord, same, same_eq, get-insert}
use tsoracle.Seq.{SeqKey}
use tsoracle.Consensus.{ConsensusError}
use tsoracle.FileDriver.{
  FileDriver, DenseState, WriteOutcome, written, failed_before_rename, failed_after_rename, reopen,
  next_block, store_dense, store_block, advance_dense,
}
use tsoracle.FileDriver.Batch.{advance_dense_batch}
use tsoracle.FileDriver.Handed.{value, own, Joins, BatchSteps, batch-Steps}

-- What a call does to the counter of `k`, in memory and in the file.
abbrev Steps : List ℕ → SeqKey → ℕ → FileDriver → Result ConsensusError ℕ × FileDriver → Type 0
Steps k key count d (ok start, d') =
    (start ≡ value key.bytes d.dense.map)
    × (value k d'.dense.map ≡ (if same k key.bytes then start + count else value k d.dense.map))
    × (value k d'.dense_file.map ≡ value k d'.dense.map)
Steps k key count d (err e, d') =
    (d'.dense ≡ d.dense)
    × ((value k d'.dense_file.map ≡ value k d.dense_file.map)
        ⊎ (value k d.dense.map ≤ value k d'.dense_file.map))

store-Steps :
    (k : List ℕ) (w : WriteOutcome) (key : SeqKey) (count start next : ℕ) (d : FileDriver)
    → start ≡ value key.bytes d.dense.map
    → next ≡ start + count
    → Steps k key count d (store_block w key (ok (start, next)) d)
unfolding store_dense
store-Steps k written key count start next d s h =
    (s, ground (arith, get-insert k key.bytes next d.dense.map), refl)
store-Steps k failed_before_rename key count start next d s h = (refl, inl refl)
store-Steps k failed_after_rename key count start next d s h = (
  refl,
  inr (elim (Bool-cases (same k key.bytes)) [
    | inl mine ↦ ground (
      arith,
      get-insert k key.bytes next d.dense.map,
      ap (λ b. value b d.dense.map) (same_eq k key.bytes mine),
    )
    | inr other ↦ ground (arith, get-insert k key.bytes next d.dense.map)
  ]),
)

-- What the block is: it starts at the counter and ends where the counter goes.
abbrev Nexts : SeqKey → ℕ → DenseState → Result ConsensusError (ℕ × ℕ) → Type 0
Nexts key count s (ok (start, next)) = (start ≡ value key.bytes s.map) × (next ≡ start + count)
Nexts key count s (err e) = Unit

next_block-Nexts :
    (key : SeqKey) (count : ℕ) (s : DenseState) → Nexts key count s (next_block key count s)
unfolding next_block
next_block-Nexts key count s = ground arith

advance-Steps :
    (k : List ℕ) (w : WriteOutcome) (key : SeqKey) (count : ℕ) (d : FileDriver)
    → Steps k key count d (advance_dense w key count d)
unfolding advance_dense store_block
advance-Steps k w key count d =
    go (next_block key count d.dense) (next_block-Nexts key count d.dense)
  where
    go :
        (r : Result ConsensusError (ℕ × ℕ))
        → Nexts key count d.dense r
        → Steps k key count d (store_block w key r d)
    go (ok (start, next)) h = store-Steps k w key count start next d h.0 h.1
    go (err e) h = (refl, inl refl)

-- What happens to the driver: a call, with how its write ends, or a restart on the files.
pub data Op : Type 0 where
  advance : (w : WriteOutcome) (key : SeqKey) (count : ℕ) → Op
  advance_batch : (w : WriteOutcome) (entries : List (SeqKey × ℕ)) → Op
  restart : Op

abbrev note : List ℕ → SeqKey → ℕ → Result ConsensusError ℕ → List (ℕ × ℕ) → List (ℕ × ℕ)
note k key count (ok start) bs = if same k key.bytes then (start, count) ∷ bs else bs
note k key count (err e) bs = bs

abbrev note_batch :
    List ℕ → List (SeqKey × ℕ) → Result ConsensusError (List ℕ) → List (ℕ × ℕ) → List (ℕ × ℕ)
note_batch k entries (ok starts) bs = own k entries starts ++ bs
note_batch k entries (err e) bs = bs

-- The blocks `(start, count)` that are given out for the key, oldest first.
unfoldable pub blocks : List ℕ → FileDriver → List Op → List (ℕ × ℕ)
blocks k d [] = []
blocks k d (advance w key count ∷ ops) =
    let (r, d') = advance_dense w key count d in note k key count r (blocks k d' ops)
blocks k d (advance_batch w entries ∷ ops) =
    let (r, d') = advance_dense_batch w entries d in note_batch k entries r (blocks k d' ops)
blocks k d (restart ∷ ops) = blocks k (reopen d) ops

-- Each block starts at or past `n`, and at or past the end of the one before.
abbrev pub Ascending : ℕ → List (ℕ × ℕ) → Type 0
Ascending n [] = Unit
Ascending n ((s, c) ∷ bs) = (n ≤ s) × Ascending (s + c) bs

-- Each block starts where the one before ends, the first at `n`.
abbrev pub Gapless : ℕ → List (ℕ × ℕ) → Type 0
Gapless n [] = Unit
Gapless n ((s, c) ∷ bs) = (s ≡ n) × Gapless (s + c) bs

abbrev pub Uninterrupted : List Op → Type 0
Uninterrupted [] = Unit
Uninterrupted (advance w key count ∷ ops) = Uninterrupted ops
Uninterrupted (advance_batch w entries ∷ ops) = Uninterrupted ops
Uninterrupted (restart ∷ ops) = ⊥

Ascending-le : (n m : ℕ) (bs : List (ℕ × ℕ)) → n ≤ m → Ascending m bs → Ascending n bs
Ascending-le n m [] h a = tt
Ascending-le n m ((s, c) ∷ bs) h a = (omega arith, a.1)

-- A granted block begins at the counter, which then stands at its end.
note-Ascending :
    (k : List ℕ) (key : SeqKey) (start count : ℕ) (d d' : FileDriver) (bs : List (ℕ × ℕ))
    → Steps k key count d (ok start, d')
    → Ascending (value k d'.dense.map) bs
    → Ascending (value k d.dense.map) (note k key count (ok start) bs)
note-Ascending k key start count d d' bs s rest = elim (Bool-cases (same k key.bytes)) [
  | inl mine ↦
      let at_counter : value k d.dense.map ≡ start =
        ap (λ b. value b d.dense.map) (same_eq k key.bytes mine) ∙ sym s.0 in
      let at_end : value k d'.dense.map ≡ start + count = s.1 ∙ rw mine refl in
      rw mine (omega (arith, at_counter), subst (λ n. Ascending n bs) at_end rest)
  | inr other ↦
      let unmoved : value k d'.dense.map ≡ value k d.dense.map = s.1 ∙ rw other refl in
      rw other (subst (λ n. Ascending n bs) unmoved rest)
]

refused-Ascending :
    (k : List ℕ) (d d' : FileDriver) (bs : List (ℕ × ℕ))
    → d'.dense ≡ d.dense
    → Ascending (value k d'.dense.map) bs
    → Ascending (value k d.dense.map) bs
refused-Ascending k d d' bs same_dense rest =
    subst (λ (c : DenseState). Ascending (value k c.map) bs) same_dense rest

note-Gapless :
    (k : List ℕ) (key : SeqKey) (start count : ℕ) (d d' : FileDriver) (bs : List (ℕ × ℕ))
    → Steps k key count d (ok start, d')
    → Gapless (value k d'.dense.map) bs
    → Gapless (value k d.dense.map) (note k key count (ok start) bs)
note-Gapless k key start count d d' bs s rest = elim (Bool-cases (same k key.bytes)) [
  | inl mine ↦
      let at_counter : value k d.dense.map ≡ start =
        ap (λ b. value b d.dense.map) (same_eq k key.bytes mine) ∙ sym s.0 in
      let at_end : value k d'.dense.map ≡ start + count = s.1 ∙ rw mine refl in
      rw mine (sym at_counter, subst (λ n. Gapless n bs) at_end rest)
  | inr other ↦
      let unmoved : value k d'.dense.map ≡ value k d.dense.map = s.1 ∙ rw other refl in
      rw other (subst (λ n. Gapless n bs) unmoved rest)
]

Joins-Ascending :
    (n m : ℕ) (xs bs : List (ℕ × ℕ)) → Joins n m xs → Ascending m bs → Ascending n (xs ++ bs)
Joins-Ascending n m [] bs h a = Ascending-le n m bs (omega (arith, h)) a
Joins-Ascending n m ((s, c) ∷ xs) bs (h, rest) a =
    (omega (arith, h), Joins-Ascending (s + c) m xs bs rest a)

Joins-Gapless :
    (n m : ℕ) (xs bs : List (ℕ × ℕ)) → Joins n m xs → Gapless m bs → Gapless n (xs ++ bs)
Joins-Gapless n m [] bs h g = subst (λ x. Gapless x bs) (sym h) g
Joins-Gapless n m ((s, c) ∷ xs) bs (h, rest) g = (h, Joins-Gapless (s + c) m xs bs rest g)

-- A file that is not behind the memory is not behind it after a call that failed.
not_behind :
    (k : List ℕ) (d d' : FileDriver)
    → d'.dense ≡ d.dense
    → (value k d'.dense_file.map ≡ value k d.dense_file.map)
      ⊎ (value k d.dense.map ≤ value k d'.dense_file.map)
    → value k d.dense.map ≤ value k d.dense_file.map
    → value k d'.dense.map ≤ value k d'.dense_file.map
not_behind k d d' kept file h =
    let unmoved : value k d'.dense.map ≡ value k d.dense.map =
      ap (λ (c : DenseState). value k c.map) kept in
    elim file [ inl f ↦ omega (arith, unmoved, f, h) | inr f ↦ omega (arith, unmoved, f) ]

batch-Ascending :
    (k : List ℕ) (entries : List (SeqKey × ℕ)) (d : FileDriver)
    (p : Result ConsensusError (List ℕ) × FileDriver) (bs : List (ℕ × ℕ))
    → BatchSteps k entries d p
    → value k d.dense.map ≤ value k d.dense_file.map
    → (value k p.1.dense.map ≤ value k p.1.dense_file.map → Ascending (value k p.1.dense.map) bs)
    → Ascending (value k d.dense.map) (note_batch k entries p.0 bs)
batch-Ascending k entries d (ok starts, d') bs (joins, file) h rest =
    Joins-Ascending (value k d.dense.map) (value k d'.dense.map) (own k entries starts) bs joins (
      rest (elim file [
        | inl f ↦ omega (arith, f)
        | inr (memory, f) ↦
            not_behind k d d' memory (inl (ap (λ (c : DenseState). value k c.map) f)) h
      ]))
batch-Ascending k entries d (err e, d') bs (kept, file) h rest =
    refused-Ascending k d d' bs kept (rest (not_behind k d d' kept file h))

batch-Gapless :
    (k : List ℕ) (entries : List (SeqKey × ℕ)) (d : FileDriver)
    (p : Result ConsensusError (List ℕ) × FileDriver) (bs : List (ℕ × ℕ))
    → BatchSteps k entries d p
    → Gapless (value k p.1.dense.map) bs
    → Gapless (value k d.dense.map) (note_batch k entries p.0 bs)
batch-Gapless k entries d (ok starts, d') bs (joins, file) rest =
    Joins-Gapless (value k d.dense.map) (value k d'.dense.map) (own k entries starts) bs joins rest
batch-Gapless k entries d (err e, d') bs (kept, file) rest =
    subst (λ (c : DenseState). Gapless (value k c.map) bs) kept rest

reopened :
    (k : List ℕ) (d : FileDriver)
    → (value k (reopen d).dense.map ≡ value k d.dense_file.map)
      × (value k (reopen d).dense_file.map ≡ value k d.dense_file.map)
unfolding reopen
reopened k d = (refl, refl)

-- Over any single and batch advances, writes that fail on either side of the rename, and restarts,
-- from a file that is not behind the memory: the blocks of a key that are given out, one by one or in
-- batches, lie each past the earlier ones, so that no value is given out twice.
pub blocks-Ascending :
    (k : List ℕ) (ops : List Op) (d : FileDriver)
    → value k d.dense.map ≤ value k d.dense_file.map
    → Ascending (value k d.dense.map) (blocks k d ops)
unfolding blocks
blocks-Ascending k [] d h = tt
blocks-Ascending k (restart ∷ ops) d h =
    let (memory, file) = reopened k d in
    Ascending-le (value k d.dense.map) (value k (reopen d).dense.map) (blocks k (reopen d) ops)
      (omega (arith, memory)) (blocks-Ascending k ops (reopen d) (omega (arith, memory, file)))
blocks-Ascending k (advance_batch w entries ∷ ops) d h =
    batch-Ascending k entries d (advance_dense_batch w entries d)
      (blocks k (advance_dense_batch w entries d).1 ops) (batch-Steps k w entries d) h
      (blocks-Ascending k ops (advance_dense_batch w entries d).1)
blocks-Ascending k (advance w key count ∷ ops) d h =
    go (advance_dense w key count d) (advance-Steps k w key count d)
      (blocks-Ascending k ops (advance_dense w key count d).1)
  where
    go :
        (p : Result ConsensusError ℕ × FileDriver)
        → Steps k key count d p
        → (value k p.1.dense.map ≤ value k p.1.dense_file.map
            → Ascending (value k p.1.dense.map) (blocks k p.1 ops))
        → Ascending (value k d.dense.map) (note k key count p.0 (blocks k p.1 ops))
    go (ok start, d') s rest =
        note-Ascending k key start count d d' (blocks k d' ops) s (rest (omega (arith, s.2)))
    go (err e, d') s rest =
        refused-Ascending k d d' (blocks k d' ops) s.0 (rest (not_behind k d d' s.0 s.1 h))

-- Without a restart between them the blocks of a key that are given out by single and batch advances
-- join without a gap, from the counter on, whatever writes failed in between.
pub blocks-Gapless :
    (k : List ℕ) (ops : List Op) (d : FileDriver)
    → Uninterrupted ops
    → Gapless (value k d.dense.map) (blocks k d ops)
unfolding blocks
blocks-Gapless k [] d u = tt
blocks-Gapless k (restart ∷ ops) d u = absurd u
blocks-Gapless k (advance_batch w entries ∷ ops) d u =
    batch-Gapless k entries d (advance_dense_batch w entries d)
      (blocks k (advance_dense_batch w entries d).1 ops) (batch-Steps k w entries d)
      (blocks-Gapless k ops (advance_dense_batch w entries d).1 u)
blocks-Gapless k (advance w key count ∷ ops) d u =
    go (advance_dense w key count d) (advance-Steps k w key count d)
      (blocks-Gapless k ops (advance_dense w key count d).1 u)
  where
    go :
        (p : Result ConsensusError ℕ × FileDriver)
        → Steps k key count d p
        → Gapless (value k p.1.dense.map) (blocks k p.1 ops)
        → Gapless (value k d.dense.map) (note k key count p.0 (blocks k p.1 ops))
    go (ok start, d') s rest = note-Gapless k key start count d d' (blocks k d' ops) s rest
    go (err e, d') s rest =
        subst (λ (c : DenseState). Gapless (value k c.map) (blocks k d' ops)) s.0 rest
