-- ===== src/FileDriver/Tests.antt =====
-- Sequences of the file driver at concrete calls.
use tsoracle.Prelude.{ℕ, ok, map, ◌≡◌, refl, List, [], ◌∷◌, arith}
use tsoracle.FileDriver.Batch.{new_keys, fold_entries, next_batch, advance_dense_batch}
use tsoracle.FileDriver.Agreement.{Agrees, batch-Agrees}
use tsoracle.Openraft.Counters.{advance_batch}
use tsoracle.Openraft.Driver.{batch_starts, to_entry}
use tsoracle.BTreeMap.{get, contains_key, insert, cmp_bytes}
use tsoracle.Seq.{SeqKey}
use tsoracle.FileDriver.{
  FileDriver, DenseState, default_dense_cardinality_cap, written, failed_after_rename,
  advance_dense, next_block, store_block, store_dense, reopen,
}
use tsoracle.FileDriver.Handed.{value, own}
use tsoracle.FileDriver.Dense.{
  Op, advance, restart, blocks, Ascending, blocks-Ascending, Gapless, blocks-Gapless,
}

abbrev empty : DenseState
empty = record { map = []; cap = default_dense_cardinality_cap }

abbrev fresh : FileDriver
fresh = record {
  state = 0;
  dense = empty;
  leases = [];
  state_file = 0;
  dense_file = empty;
  leases_file = [];
}

abbrev orders : SeqKey
orders = record { bytes = 111 ∷ [] }

abbrev prices : SeqKey
prices = record { bytes = 112 ∷ [] }

abbrev batch : List (SeqKey × ℕ)
batch = (orders, 5) ∷ (prices, 1) ∷ (orders, 2) ∷ []

-- A write that fails after the rename, before a restart and without one.
abbrev crash : List Op
crash =
    advance written orders 5
    ∷ advance failed_after_rename orders 2
    ∷ restart
    ∷ Op.advance_batch written batch
    ∷ advance written orders 3
    ∷ []

abbrev failures : List Op
failures =
    advance written orders 5
    ∷ advance failed_after_rename orders 2
    ∷ Op.advance_batch failed_after_rename batch
    ∷ Op.advance_batch written batch
    ∷ advance written orders 3
    ∷ []

blocks-Ascending_example :
    Ascending (value (111 ∷ []) fresh.dense.map) (blocks (111 ∷ []) fresh crash)
blocks-Ascending_example = blocks-Ascending (111 ∷ []) crash fresh (omega arith)

blocks-Gapless_example :
    Gapless (value (111 ∷ []) fresh.dense.map) (blocks (111 ∷ []) fresh failures)
blocks-Gapless_example = blocks-Gapless (111 ∷ []) failures fresh tt

-- The block of the call that failed after the rename is skipped by the restart.
skipped : blocks (111 ∷ []) fresh crash ≡ (0, 5) ∷ (7, 5) ∷ (12, 2) ∷ (14, 3) ∷ []
unfolding advance_dense_batch next_batch new_keys fold_entries own get blocks advance_dense
    next_block store_block store_dense reopen contains_key insert cmp_bytes
skipped = refl

batch_run : (advance_dense_batch written batch fresh).0 ≡ ok (0 ∷ 0 ∷ 5 ∷ [])
unfolding advance_dense_batch next_batch new_keys fold_entries store_dense contains_key get insert
    cmp_bytes
batch_run = refl

batch-Agrees_example :
    Agrees written fresh
      (batch_starts (advance_batch 10000 (map to_entry batch) []).0)
      (advance_batch 10000 (map to_entry batch) []).1
      (advance_dense_batch written batch fresh)
batch-Agrees_example = batch-Agrees written batch fresh (omega arith)
