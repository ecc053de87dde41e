-- ===== src/LogStore/Database.antt =====
-- The database as the code relies on it: two column families in key order, and atomic batches.
use Prim.Native.Nat.Ordering.{lt}
use Prim.Native.Nat.{Ordering}
use mathlib.Core.List.{reverse}
use tsoracle.Prelude.{
  ◌≡◌, ℕ, Bool, true, false, not, ◌||◌, if◌then◌else◌, Option, none, some, List, [], ◌∷◌,
}
use tsoracle.BTreeMap.{BTreeMap, bytes_ord, cmp_bytes, insert, remove, Sorted}

pub data Family : Type 0 where
  log_family meta_family : Family

pub data BatchOp : Type 0 where
  put_cf : (f : Family) (key value : List ℕ) → BatchOp
  delete_cf : (f : Family) (key : List ℕ) → BatchOp
  delete_range_cf : (f : Family) (from to : List ℕ) → BatchOp

abbrev pub Content : Type 0
Content = BTreeMap (List ℕ) (List ℕ)

abbrev pub is_lt : Ordering → Bool
is_lt lt = true
is_lt _ = false

abbrev pub lt_bytes : List ℕ → List ℕ → Bool
lt_bytes a b = is_lt (cmp_bytes a b)

unfoldable pub retain_keys {ℓ κ} :
    {K : Type ℓ} {V : Type κ} → (K → Bool) → BTreeMap K V → BTreeMap K V
retain_keys p [] = []
retain_keys p ((k, v) ∷ m) = let rest = retain_keys p m in if p k then (k, v) ∷ rest else rest

-- `IteratorMode::From` in both directions: the key itself is included.
unfoldable pub iter_forward : List ℕ → Content → Content
unfolding retain_keys cmp_bytes
iter_forward from c = retain_keys (λ k. not (lt_bytes k from)) c

unfoldable pub iter_reverse : List ℕ → Content → Content
unfolding retain_keys cmp_bytes
iter_reverse from c = reverse (retain_keys (λ k. not (lt_bytes from k)) c)

abbrev pub same_family : Family → Family → Bool
same_family log_family log_family = true
same_family meta_family meta_family = true
same_family _ _ = false

-- What an operation of a batch does to a family; a range includes its start and not its end.
unfoldable pub apply_op : Family → BatchOp → Content → Content
unfolding insert remove retain_keys cmp_bytes
apply_op f (put_cf g key value) c = if same_family f g then insert key value c else c
apply_op f (delete_cf g key) c = if same_family f g then remove key c else c
apply_op f (delete_range_cf g from to) c =
    if same_family f g then retain_keys (λ k. lt_bytes k from || not (lt_bytes k to)) c else c

unfoldable pub apply_batch : Family → List BatchOp → Content → Content
unfolding apply_op
apply_batch f [] c = c
apply_batch f (op ∷ batch) c = apply_batch f batch (apply_op f op c)

-- How a write ends: it goes through, or it fails with the batch in place or without.
pub data WriteOutcome (D : Type 0) : Type 0 where
  written failed_in_place : D → WriteOutcome D
  failed_unwritten : WriteOutcome D

-- The database with the batch in place, if it is.
abbrev pub in_place : {D : Type 0} → WriteOutcome D → Option D
in_place (written d) = some d
in_place (failed_in_place d) = some d
in_place failed_unwritten = none

-- RocksDB: the contents of a family in key order, and a batch that is in place whole or not at all.
pub record Rocksdb (D : Type 0) : Type 0 where
  pub scan : Family → D → Content
  pub write : List BatchOp → D → WriteOutcome D
  pub scan_sorted : (f : Family) (d : D) → Sorted (scan f d)
  pub write_lem :
      (batch : List BatchOp) (d d' : D) (f : Family)
      → in_place (write batch d) ≡ some d'
      → scan f d' ≡ apply_batch f batch (scan f d)
