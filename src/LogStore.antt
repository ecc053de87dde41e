-- ===== src/LogStore.antt =====
-- crates/tsoracle-openraft-toolkit/src/log_store: the replicated log in a RocksDB database, with its
-- keys (key_space.rs), its records (mod.rs) and its metadata (meta.rs). The database, the types of
-- entries, votes and log ids, and the codecs of their bodies are parameters.
pub mod Database
pub mod Keys
pub mod Slices
pub mod Matches
pub mod Reads
pub mod Last
pub mod Refinement
pub mod Changes
pub mod Runs
pub mod Groups
mod Tests
use tsoracle.Prelude.{
  ℕ, zero, suc, ◌+◌, ◌≡◌, Bool, true, false, leb, ltb, ◌||◌, if◌then◌else◌, max, Option, none, some,
  List, [], ◌∷◌, Result, ok, err, ◌>>=◌, ◌>>◌, fail_if, ok_or, checked_add_u64, saturating_add_u64,
  u64_max,
}
use tsoracle.BTreeMap.{bytes_ord, get}
use tsoracle.LogStore.Database.{
  WriteOutcome, written, failed_in_place, failed_unwritten, Family, log_family, meta_family,
  BatchOp, put_cf, delete_cf, delete_range_cf, Content, Rocksdb, is_lt, lt_bytes, iter_forward,
  iter_reverse,
}
use tsoracle.LogStore.Keys.{MetaLabel, vote, committed, last_purged, KeySpace}

-- The constants of crates/tsoracle-openraft-toolkit/src/codec.rs.
abbrev pub min_readable_version : ℕ
min_readable_version = 4

abbrev pub max_readable_version : ℕ
max_readable_version = 7

pub data IoError : Type 0 where
  empty : IoError
  version : (expected actual : ℕ) → IoError
  encode_failed decode_failed write_failed : IoError

-- A body codec: what is encoded at a version decodes at that version.
pub record Body (A : Type 0) : Type 0 where
  pub encode : ℕ → A → Option (List ℕ)
  pub decode : ℕ → List ℕ → Option A
  pub round_trip : (v : ℕ) (a : A) (b : List ℕ) → encode v a ≡ some b → decode v b ≡ some a

-- `RocksdbLogStore`, with the accessors of its types.
pub record Store (D E V L : Type 0) : Type 0 where
  pub db : Rocksdb D
  pub keys : KeySpace
  pub active_write_version : ℕ
  pub entries : Body E
  pub votes : Body V
  pub log_ids : Body L
  pub log_id : E → L
  pub index : L → ℕ

-- How a range of indices starts and ends.
pub data Bound : Type 0 where
  included excluded : ℕ → Bound
  unbounded : Bound

abbrev pub start_of : Bound → ℕ
start_of (included n) = n
start_of (excluded n) = saturating_add_u64 n 1
start_of unbounded = 0

abbrev pub end_of : Bound → ℕ
end_of (included n) = saturating_add_u64 n 1
end_of (excluded n) = n
end_of unbounded = u64_max

unfoldable pub range_boundary : Bound → Bound → ℕ × ℕ
range_boundary start end = (start_of start, end_of end)

abbrev pub frame_with_version : ℕ → List ℕ → List ℕ
frame_with_version v body = v ∷ body

unfoldable pub unframe_with_version : List ℕ → Result IoError (ℕ × List ℕ)
unframe_with_version [] = err empty
unframe_with_version (v ∷ body) = do
  fail_if (ltb v min_readable_version || ltb max_readable_version v)
      (version max_readable_version v)
  ok (v, body)

module _ {A : Type 0} (codec : Body A) where
  unfoldable pub encode_record : ℕ → A → Result IoError (List ℕ)
  encode_record v a = do
    body ← ok_or (codec.encode v a) encode_failed
    ok (frame_with_version v body)

  unfoldable pub decode_record : List ℕ → Result IoError A
  unfolding unframe_with_version
  decode_record bytes = do
    (v, body) ← unframe_with_version bytes
    ok_or (codec.decode v body) decode_failed

pub record LogState (L : Type 0) : Type 0 where
  pub last_purged_log_id : Option L
  pub last_log_id : Option L

abbrev pub or_else {ℓ} : {A : Type ℓ} → Option A → Option A → Option A
or_else none o = o
or_else (some a) o = some a

abbrev pub decode_found : {A : Type 0} → Body A → Option (List ℕ) → Result IoError (Option A)
unfolding decode_record
decode_found codec none = ok none
decode_found codec (some bytes) = decode_record codec bytes >>= λ a. ok (some a)

-- `write_opt`, and what is answered; after an error the batch may be in place.
abbrev pub settle : {D : Type 0} → D → WriteOutcome D → Result IoError (Unit {0}) × D
settle d (written d') = (ok tt, d')
settle d (failed_in_place d') = (err write_failed, d')
settle d failed_unwritten = (err write_failed, d)

module _ {D E V L : Type 0} (s : Store D E V L) where
  abbrev pub put_entry : ℕ → E → List ℕ → BatchOp
  put_entry i e value = put_cf log_family (s.keys.log_key i) value

  -- What the iterator sees first, from the end of the range backwards.
  abbrev pub first_in_range : Content → Result IoError (Option L)
  unfolding decode_record
  first_in_range [] = ok none
  first_in_range ((k, v) ∷ it) =
      if lt_bytes k s.keys.range_lo
      then ok none
      else (decode_record s.entries v >>= λ e. ok (some (s.log_id e)))

  unfoldable pub last_log_id_in_cf : D → Result IoError (Option L)
  unfolding iter_reverse decode_record
  last_log_id_in_cf d = first_in_range (iter_reverse s.keys.range_hi (s.db.scan log_family d))

  -- `highest`, raised to a record's leading byte
  abbrev pub raise_to : Option ℕ → List ℕ → Option ℕ
  raise_to highest [] = highest
  raise_to none (leading ∷ body) = some leading
  raise_to (some n) (leading ∷ body) = some (max n leading)

  unfoldable pub highest_from : Content → Option ℕ → Option ℕ
  highest_from [] highest = highest
  highest_from ((k, v) ∷ it) highest =
      let rest = highest_from it (raise_to highest v) in
      if lt_bytes k s.keys.range_lo then highest else rest

  unfoldable pub highest_log_record_version : D → Option ℕ
  unfolding highest_from iter_reverse
  highest_log_record_version d =
      highest_from (iter_reverse s.keys.range_hi (s.db.scan log_family d)) none

  -- The loop over the iterator, up to the key of the range's end.
  unfoldable pub collect_until : List ℕ → Content → Result IoError (List E)
  unfolding decode_record
  collect_until end_key [] = ok []
  collect_until end_key ((k, v) ∷ it) =
      let rest =
        (decode_record s.entries v >>= λ e. collect_until end_key it >>= λ out. ok (e ∷ out)) in
      if lt_bytes k end_key then rest else ok []

  unfoldable pub try_get_log_entries : Bound → Bound → D → Result IoError (List E)
  unfolding range_boundary collect_until iter_forward
  try_get_log_entries from to d =
      let (start, end) = range_boundary from to in
      if leb end start
      then ok []
      else collect_until (s.keys.log_key end)
          (iter_forward (s.keys.log_key start) (s.db.scan log_family d))

  -- `read_vote` and `read_log_id` of meta.rs
  unfoldable pub read_meta : {A : Type 0} → Body A → MetaLabel → D → Result IoError (Option A)
  unfolding decode_record get
  read_meta codec label d =
      decode_found codec (get (s.keys.meta_key label) (s.db.scan meta_family d))

  -- `put_vote` and `put_log_id` of meta.rs, as the operation they add to the batch
  unfoldable pub put_meta : {A : Type 0} → Body A → MetaLabel → A → Result IoError BatchOp
  unfolding encode_record
  put_meta codec label a = do
    bytes ← encode_record codec s.active_write_version a
    ok (put_cf meta_family (s.keys.meta_key label) bytes)

  -- The write of a batch, if it could be put together.
  unfoldable pub write_batch : Result IoError (List BatchOp) → D → Result IoError (Unit {0}) × D
  write_batch (err e) d = (err e, d)
  write_batch (ok batch) d = settle d (s.db.write batch d)

  unfoldable pub read_vote : D → Result IoError (Option V)
  unfolding read_meta
  read_vote d = read_meta s.votes vote d

  unfoldable pub save_vote : V → D → Result IoError (Unit {0}) × D
  unfolding write_batch put_meta
  save_vote v d = write_batch (put_meta s.votes vote v >>= λ op. ok (op ∷ [])) d

  unfoldable pub read_committed : D → Result IoError (Option L)
  unfolding read_meta
  read_committed d = read_meta s.log_ids committed d

  abbrev pub committed_batch : Option L → Result IoError (List BatchOp)
  unfolding put_meta
  committed_batch (some id) = put_meta s.log_ids committed id >>= λ op. ok (op ∷ [])
  committed_batch none = ok (delete_cf meta_family (s.keys.meta_key committed) ∷ [])

  unfoldable pub save_committed : Option L → D → Result IoError (Unit {0}) × D
  unfolding write_batch put_meta
  save_committed id d = write_batch (committed_batch id) d

  unfoldable pub get_log_state : D → Result IoError (LogState L)
  unfolding read_meta last_log_id_in_cf
  get_log_state d = do
    purged ← read_meta s.log_ids last_purged d
    last_in_log ← last_log_id_in_cf d
    ok (record { last_purged_log_id = purged; last_log_id = or_else last_in_log purged })

  unfoldable pub append_batch : List E → Result IoError (List BatchOp)
  unfolding encode_record
  append_batch [] = ok []
  append_batch (e ∷ es) = do
    value ← encode_record s.entries s.active_write_version e
    batch ← append_batch es
    ok (put_entry (s.index (s.log_id e)) e value ∷ batch)

  unfoldable pub append : List E → D → Result IoError (Unit {0}) × D
  unfolding append_batch write_batch
  append es d = write_batch (append_batch es) d

  -- `next_index` of openraft
  abbrev pub next_index : Option L → ℕ
  next_index none = 0
  next_index (some id) = s.index id + 1

  unfoldable pub truncate_after : Option L → D → Result IoError (Unit {0}) × D
  unfolding write_batch
  truncate_after last d =
      write_batch
        (ok
          (delete_range_cf log_family (s.keys.log_key (next_index last)) s.keys.log_end_bound ∷ []))
        d

  -- The key after the purged ones, or the bound of all of them.
  abbrev pub purge_end : Option ℕ → List ℕ
  purge_end (some next) = s.keys.log_key next
  purge_end none = s.keys.log_end_bound

  unfoldable pub purge_batch : L → Result IoError (List BatchOp)
  unfolding put_meta
  purge_batch id = do
    op ← put_meta s.log_ids last_purged id
    ok (
        delete_range_cf log_family s.keys.range_lo (purge_end (checked_add_u64 (s.index id) 1))
        ∷ op
        ∷ [])

  unfoldable pub purge : L → D → Result IoError (Unit {0}) × D
  unfolding purge_batch write_batch
  purge id d = write_batch (purge_batch id) d
