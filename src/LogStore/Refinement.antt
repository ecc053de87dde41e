-- ===== src/LogStore/Refinement.antt =====
-- What a log store promises: a log by index, the last purged id, a vote and a committed id.
use mathlib.Core.Path.{subst}
use tsoracle.Prelude.{
  ℕ, ◌≤◌, ◌<◌, ◌≡◌, ◌∙◌, sym, ap, refl, Bool, true, false, leb, ltb, Option, none, some, List, [],
  ◌∷◌, Result, ok, err, ◌>>=◌, ok_or, u64_max, if◌then◌else◌, All, arith,
}
use tsoracle.BTreeMap.{
  BTreeMap, bytes_ord, nat_ord, same, same_eq, get, insert, Sorted, insert-Sorted,
}
use tsoracle.LogStore.{
  Store, IoError, Body, encode_record, decode_record, read_meta, put_meta, write_batch, read_vote,
  save_vote, read_committed, save_committed, append_batch, append, truncate_after, purge,
  next_index, purge_batch, committed_batch, min_readable_version, max_readable_version,
  encode_failed, settle, decode_found,
}
use tsoracle.LogStore.Database.{
  WriteOutcome, written, failed_in_place, failed_unwritten, in_place, delete_range_cf, Family,
  log_family, meta_family, BatchOp, put_cf, Content, retain_keys, apply_op, apply_batch,
}
use tsoracle.LogStore.Keys.{MetaLabel, vote, last_purged}
use tsoracle.LogStore.Keys.Order.{IsKeySpace, in_range}
use tsoracle.LogStore.Slices.{retain-insert}
use tsoracle.LogStore.Matches.{Matches, Matches-insert}
use tsoracle.LogStore.Reads.{slice}

pub record Log (E V L : Type 0) : Type 0 where
  pub entries : BTreeMap ℕ E
  pub purged : Option L
  pub voted : Option V
  pub agreed : Option L

pub data Change (E V L : Type 0) : Type 0 where
  appended : List E → Change E V L
  truncated : Option L → Change E V L
  purged_to : L → Change E V L
  voted_for : V → Change E V L
  agreed_on : Option L → Change E V L

abbrev pub OnOk {ℓ} : {A : Type 0} → Result IoError A → (A → Type ℓ) → Type ℓ
OnOk (ok a) P = P a
OnOk (err e) P = Unit

module _ {D E V L : Type 0} (s : Store D E V L) where
  unfoldable pub perform : Change E V L → D → Result IoError (Unit {0}) × D
  unfolding append truncate_after purge save_vote save_committed
  perform (appended es) d = append s es d
  perform (truncated last) d = truncate_after s last d
  perform (purged_to id) d = purge s id d
  perform (voted_for v) d = save_vote s v d
  perform (agreed_on id) d = save_committed s id d

  abbrev pub insert_all : List E → BTreeMap ℕ E → BTreeMap ℕ E
  insert_all [] m = m
  insert_all (e ∷ es) m = insert_all es (insert (s.index (s.log_id e)) e m)

  abbrev pub up_to : Option L → ℕ → Bool
  up_to none i = false
  up_to (some id) i = leb i (s.index id)

  -- What a change means for the log.
  abbrev pub changed : Change E V L → Log E V L → Log E V L
  changed (appended es) a = record a { entries = insert_all es a.entries }
  changed (truncated last) a = record a { entries = retain_keys (up_to last) a.entries }
  changed (purged_to id) a = record a {
    entries = retain_keys (λ i. ltb (s.index id) i) a.entries;
    purged = some id;
  }
  changed (voted_for v) a = record a { voted = some v }
  changed (agreed_on id) a = record a { agreed = id }

  -- A change that is answered by `ok` is done; one that fails, if its batch is in place.
  abbrev pub settled :
      Result IoError (Unit {0}) → (in_database : Bool) → Change E V L → Log E V L → Log E V L
  settled (ok u) in_database c a = changed c a
  settled (err e) true c a = changed c a
  settled (err e) false c a = a

  abbrev pub batch_of : Change E V L → Result IoError (List BatchOp)
  batch_of (appended es) = append_batch s es
  batch_of (truncated last) =
      ok (delete_range_cf log_family (s.keys.log_key (next_index s last)) s.keys.log_end_bound ∷ [])
  batch_of (purged_to id) = purge_batch s id
  batch_of (voted_for v) = put_meta s s.votes vote v >>= λ op. ok (op ∷ [])
  batch_of (agreed_on id) = committed_batch s id

  abbrev is_some : Option D → Bool
  is_some none = false
  is_some (some d) = true

  -- Whether the database has the batch after the write.
  abbrev pub kept : Result IoError (List BatchOp) → D → Bool
  kept (err e) d = false
  kept (ok batch) d = is_some (in_place (s.db.write batch d))

  -- The log after a change of the store.
  abbrev pub after : Change E V L → D → Log E V L → Log E V L
  after c d a = settled (perform c d).0 (kept (batch_of c) d) c a

  -- Indices stay below the largest word.
  abbrev pub InBounds : Change E V L → Type 0
  InBounds (appended es) = All (λ e. s.index (s.log_id e) < u64_max) es
  InBounds (truncated none) = Unit
  InBounds (truncated (some id)) = s.index id < u64_max
  InBounds (purged_to id) = s.index id < u64_max
  InBounds (voted_for v) = Unit
  InBounds (agreed_on id) = Unit

  pub record Refines (d : D) (a : Log E V L) : Type 0 where
    pub rows : Matches s (slice s d) a.entries
    pub purged : read_meta s s.log_ids last_purged d ≡ ok a.purged
    pub voted : read_vote s d ≡ ok a.voted
    pub agreed : read_committed s d ≡ ok a.agreed

  -- `d'` is what a batch makes of `d`.
  abbrev pub Written : List BatchOp → D → D → Type 0
  Written batch d d' = (f : Family) → s.db.scan f d' ≡ apply_batch f batch (s.db.scan f d)

  pub write-Refines :
      (r : Result IoError (List BatchOp)) (d : D) (c : Change E V L) (a : Log E V L)
      → Refines d a
      → OnOk r (λ batch. (d' : D) → Written batch d d' → Refines d' (changed c a))
      → Refines (write_batch s r d).1 (settled (write_batch s r d).0 (kept r d) c a)
  unfolding write_batch
  write-Refines (err e) d c a h k = h
  write-Refines (ok batch) d c a h k =
      go (s.db.write batch d) (λ d' e. k d' (λ f. s.db.write_lem batch d d' f e))
    where
      go :
          (o : WriteOutcome D)
          → ((d' : D) → in_place o ≡ some d' → Refines d' (changed c a))
          → Refines (settle d o).1 (settled (settle d o).0 (is_some (in_place o)) c a)
      go failed_unwritten q = h
      go (failed_in_place d') q = q d' refl
      go (written d') q = q d' refl

  module _ (low : min_readable_version ≤ s.active_write_version)
      (high : s.active_write_version ≤ max_readable_version) where
    encoded :
        {A : Type 0} (codec : Body A) (x : A)
        → OnOk (encode_record codec s.active_write_version x) (λ b. decode_record codec b ≡ ok x)
    unfolding encode_record decode_record
    encoded codec x =
        go (codec.encode s.active_write_version x)
          (λ b e. codec.round_trip s.active_write_version x b e)
      where
        go :
            (o : Option (List ℕ))
            → ((b : List ℕ) → o ≡ some b → codec.decode s.active_write_version b ≡ some x)
            → OnOk
                (ok_or o encode_failed >>= λ body. ok (s.active_write_version ∷ body))
                (λ b. decode_record codec b ≡ ok x)
        go none q = tt
        go (some b) q = ground (arith, q b refl)

    -- What a put of a label adds to the batch, and how it is read back.
    pub put_meta-Reads :
        {A : Type 0} (codec : Body A) (label : MetaLabel) (x : A)
        → OnOk (put_meta s codec label x) (λ op.
          (bytes : List ℕ) × (op ≡ put_cf meta_family (s.keys.meta_key label) bytes)
          × (decode_record codec bytes ≡ ok x))
    unfolding put_meta
    put_meta-Reads codec label x =
        go (encode_record codec s.active_write_version x) (encoded codec x)
      where
        go :
            (r : Result IoError (List ℕ))
            → OnOk r (λ b. decode_record codec b ≡ ok x)
            → OnOk (r >>= λ bytes. ok (put_cf meta_family (s.keys.meta_key label) bytes)) (λ op.
              (bytes : List ℕ) × (op ≡ put_cf meta_family (s.keys.meta_key label) bytes)
              × (decode_record codec bytes ≡ ok x))
        go (err e) q = tt
        go (ok b) q = (b, refl, q)

    module _ (ks : IsKeySpace s.keys) where
      pub same_label :
          (l m : MetaLabel) → same (s.keys.meta_key l) (s.keys.meta_key m) ≡ true → l ≡ m
      same_label l m h = ks.labels l m (same_eq _ _ h)

      -- A read of a label after a put of that one, or of another.
      pub read-put :
          {A : Type 0} (codec : Body A) (label : MetaLabel) (bytes : List ℕ) (x : A) (d : D)
          → get (s.keys.meta_key label) (s.db.scan meta_family d) ≡ some bytes
          → decode_record codec bytes ≡ ok x
          → read_meta s codec label d ≡ ok (some x)
      unfolding read_meta decode_record
      read-put codec label bytes x d h e = ap (decode_found codec) h ∙ rw e refl

      pub read-other :
          {A : Type 0} (codec : Body A) (label : MetaLabel) (d d' : D)
          → get (s.keys.meta_key label) (s.db.scan meta_family d')
            ≡ get (s.keys.meta_key label) (s.db.scan meta_family d)
          → read_meta s codec label d' ≡ read_meta s codec label d
      unfolding read_meta
      read-other codec label d d' h = ap (decode_found codec) h

      -- What the batch of an append does to the rows of the log, and that it leaves the metadata.
      abbrev pub Appends : List E → List BatchOp → Type 0
      Appends es batch =
          ((c : Content) (m : BTreeMap ℕ E)
            → Sorted c
            → Matches s (retain_keys (in_range s.keys) c) m
            → Matches s (retain_keys (in_range s.keys) (apply_batch log_family batch c))
                (insert_all es m))
          × ((c : Content) → apply_batch meta_family batch c ≡ c)

      in_range-key : (i : ℕ) → i < u64_max → in_range s.keys (s.keys.log_key i) ≡ true
      in_range-key i h = rw (ks.above_lo i (omega arith), ks.below_hi i (omega arith)) refl

      append_step :
          (e : E) (es : List E) (r : Result IoError (List ℕ)) (rest : Result IoError (List BatchOp))
          → s.index (s.log_id e) < u64_max
          → OnOk r (λ b. decode_record s.entries b ≡ ok e)
          → OnOk rest (Appends es)
          → OnOk
              (r >>= λ value. rest >>= λ batch.
                ok (put_cf log_family (s.keys.log_key (s.index (s.log_id e))) value ∷ batch))
              (Appends (e ∷ es))
      unfolding apply_batch apply_op
      append_step e es (err x) rest h p q = tt
      append_step e es (ok value) (err x) h p q = tt
      append_step e es (ok value) (ok batch) h p (q, u) =
          let i = s.index (s.log_id e) in
          (
            λ c m o k.
                q (insert (s.keys.log_key i) value c) (insert i e m)
                  (insert-Sorted (s.keys.log_key i) value c o)
                  (subst (λ r. Matches s r (insert i e m))
                    (sym (
                      retain-insert (in_range s.keys) (s.keys.log_key i) value c o
                      ∙ ap
                          (λ b.
                            if b
                            then insert (s.keys.log_key i) value (retain_keys (in_range s.keys) c)
                            else retain_keys (in_range s.keys) c)
                          (in_range-key i h)))
                    (Matches-insert s ks (retain_keys (in_range s.keys) c) m i value e
                      (refl, h, p, refl) k)),
            u,
          )

      pub append-Appends :
          (es : List E)
          → All (λ e. s.index (s.log_id e) < u64_max) es
          → OnOk (append_batch s es) (Appends es)
      unfolding append_batch apply_batch
      append-Appends [] h = (λ c m o k. k, λ c. refl)
      append-Appends (e ∷ es) (h, hs) =
          append_step e es (encode_record s.entries s.active_write_version e) (append_batch s es) h
            (encoded s.entries e) (append-Appends es hs)
