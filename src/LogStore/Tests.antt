-- ===== src/LogStore/Tests.antt =====
-- A database that keeps the batches it is given, and stores on it.
use tsoracle.Prelude.{ℕ, ◌≡◌, refl, Option, none, some, List, [], ◌∷◌, ◌++◌, ok, arith}
use tsoracle.BTreeMap.{bytes_ord, get, Sorted, insert-Sorted, remove-Sorted}
use tsoracle.LogStore.{
  Store, Body, included, unbounded, or_else, try_get_log_entries, get_log_state, read_meta,
  read_vote, read_committed,
}
use tsoracle.LogStore.Database.{
  WriteOutcome, written, failed_in_place, failed_unwritten, in_place, Family, log_family,
  meta_family, BatchOp, put_cf, delete_cf, delete_range_cf, Content, Rocksdb, retain_keys, apply_op,
  apply_batch,
}
use tsoracle.LogStore.Keys.{flat}
use tsoracle.LogStore.Keys.Order.{flat-IsKeySpace}
use tsoracle.LogStore.Slices.{retain-Sorted}
use tsoracle.LogStore.Matches.{entries_of}
use tsoracle.LogStore.Reads.{within}
use tsoracle.LogStore.Last.{last_entry}
use tsoracle.LogStore.Refinement.{
  Log, Change, appended, truncated, purged_to, voted_for, agreed_on, Refines,
}
use tsoracle.LogStore.Runs.{run, run_log, run-reads}
use tsoracle.LogStore.Groups.{with_group, run-Keeps}

op-Sorted : (f : Family) (op : BatchOp) (c : Content) → Sorted c → Sorted (apply_op f op c)
unfolding apply_op
op-Sorted log_family (put_cf log_family k v) c s = insert-Sorted k v c s
op-Sorted meta_family (put_cf meta_family k v) c s = insert-Sorted k v c s
op-Sorted log_family (put_cf meta_family k v) c s = s
op-Sorted meta_family (put_cf log_family k v) c s = s
op-Sorted log_family (delete_cf log_family k) c s = remove-Sorted k c s
op-Sorted meta_family (delete_cf meta_family k) c s = remove-Sorted k c s
op-Sorted log_family (delete_cf meta_family k) c s = s
op-Sorted meta_family (delete_cf log_family k) c s = s
op-Sorted log_family (delete_range_cf log_family a b) c s = retain-Sorted _ c s
op-Sorted meta_family (delete_range_cf meta_family a b) c s = retain-Sorted _ c s
op-Sorted log_family (delete_range_cf meta_family a b) c s = s
op-Sorted meta_family (delete_range_cf log_family a b) c s = s

batch-Sorted :
    (f : Family) (batch : List BatchOp) (c : Content) → Sorted c → Sorted (apply_batch f batch c)
unfolding apply_batch
batch-Sorted f [] c s = s
batch-Sorted f (op ∷ batch) c s = batch-Sorted f batch (apply_op f op c) (op-Sorted f op c s)

batch-append :
    (f : Family) (a b : List BatchOp) (c : Content)
    → apply_batch f (a ++ b) c ≡ apply_batch f b (apply_batch f a c)
unfolding apply_batch
batch-append f [] b c = refl
batch-append f (op ∷ a) b c = batch-append f a b (apply_op f op c)

-- A write of nothing fails, and one that begins with a range fails when it is in place.
abbrev kept : List BatchOp → List BatchOp → WriteOutcome (List BatchOp)
kept [] d = failed_unwritten
kept (delete_range_cf f from to ∷ batch) d =
    failed_in_place (d ++ (delete_range_cf f from to ∷ batch))
kept (op ∷ batch) d = written (d ++ (op ∷ batch))

kept_lem :
    (batch d d' : List BatchOp) (f : Family)
    → in_place (kept batch d) ≡ some d'
    → apply_batch f d' [] ≡ apply_batch f batch (apply_batch f d [])
kept_lem [] d d' f h = cc
kept_lem (delete_range_cf g a b ∷ batch) d d' f h =
    ground (arith, batch-append f d (delete_range_cf g a b ∷ batch) [])
kept_lem (put_cf g a b ∷ batch) d d' f h =
    ground (arith, batch-append f d (put_cf g a b ∷ batch) [])
kept_lem (delete_cf g a ∷ batch) d d' f h =
    ground (arith, batch-append f d (delete_cf g a ∷ batch) [])

abbrev memory : Rocksdb (List BatchOp)
memory = record {
  scan = λ f d. apply_batch f d [];
  write = kept;
  scan_sorted = λ f d. batch-Sorted f d [] tt;
  write_lem = kept_lem;
}

abbrev decode_one : List ℕ → Option ℕ
decode_one [] = none
decode_one (n ∷ []) = some n
decode_one (n ∷ m ∷ ns) = none

one_trip :
    (v n : ℕ) (b : List ℕ)
    → ◌≡◌ {A = Option (List ℕ)} (some (n ∷ [])) (some b)
    → decode_one b ≡ some n
one_trip v n [] h = cc
one_trip v n (m ∷ []) h = cc
one_trip v n (m ∷ k ∷ b) h = cc

abbrev one : Body ℕ
one = record { encode = λ v n. some (n ∷ []); decode = λ v b. decode_one b; round_trip = one_trip }

-- Entries that are their own ids and indices.
abbrev store : Store (List BatchOp) ℕ ℕ ℕ
store = record {
  db = memory;
  keys = flat;
  active_write_version = 4;
  entries = one;
  votes = one;
  log_ids = one;
  log_id = λ e. e;
  index = λ i. i;
}

abbrev nothing : Log ℕ ℕ ℕ
nothing = record { entries = []; purged = none; voted = none; agreed = none }

empty-Refines : Refines store [] nothing
unfolding read_meta read_vote read_committed apply_batch retain_keys get
empty-Refines = record { rows = tt; purged = refl; voted = refl; agreed = refl }

other-Refines : Refines (with_group 7 store) [] nothing
unfolding read_meta read_vote read_committed apply_batch retain_keys get
other-Refines = record { rows = tt; purged = refl; voted = refl; agreed = refl }

abbrev changes : List (Change ℕ ℕ ℕ)
changes =
    appended (4 ∷ 5 ∷ 6 ∷ 7 ∷ [])
    ∷ voted_for 9
    ∷ truncated (some 6)
    ∷ purged_to 4
    ∷ agreed_on (some 5)
    ∷ []

run-reads_example :
    (try_get_log_entries store (included 5) unbounded (run store changes [])
      ≡ ok (
          entries_of store (
            retain_keys
              (within (included 5) unbounded)
              (run_log store changes [] nothing).entries)))
    × (get_log_state store (run store changes [])
        ≡ ok (record {
          last_purged_log_id = (run_log store changes [] nothing).purged;
          last_log_id =
              or_else
                (last_entry store (run_log store changes [] nothing).entries)
                (run_log store changes [] nothing).purged;
        }))
    × (read_vote store (run store changes []) ≡ ok (run_log store changes [] nothing).voted)
    × (read_committed store (run store changes []) ≡ ok (run_log store changes [] nothing).agreed)
run-reads_example =
    run-reads store flat-IsKeySpace (omega arith) (omega arith) changes [] nothing (included 5)
      unbounded (omega arith) empty-Refines (omega arith) tt

run-Keeps_example : Refines (with_group 7 store) (run (with_group 3 store) changes []) nothing
run-Keeps_example =
    run-Keeps store 3 7 changes [] nothing (omega arith) (omega arith) (omega arith) (omega arith)
      other-Refines
