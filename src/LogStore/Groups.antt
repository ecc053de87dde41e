-- ===== src/LogStore/Groups.antt =====
-- Several groups in one database: what one of them does, the others do not see.
use mathlib.Core.Path.{subst}
use mathlib.Core.List.{append_assoc}
use Prim.Native.Nat.{compare, Ordering}
use tsoracle.Prelude.{
  ℕ, ◌+◌, ◌<◌, ◌^◌, ◌≡◌, ◌≢◌, ◌∙◌, sym, ap, refl, true, false, not, ◌||◌, none, some, List, [], ◌∷◌,
  ◌++◌, Result, ok, err, ◌>>=◌, u64_max, checked_add_u64, if◌then◌else◌, All, arith, inl, inr,
  Bool-cases,
}
use tsoracle.BTreeMap.{
  bytes_ord, cmp_bytes, then_cmp, bytes_trans, bytes_eq, bytes_lt, same, get, Sorted, get-insert,
  get-remove, insert-Sorted, remove-Sorted,
}
use tsoracle.LogStore.{
  Store, IoError, Body, put_meta, read_vote, read_committed, read_meta, write_batch, settle,
  purge_end, decode_found, save_vote, save_committed, append_batch, append, truncate_after, purge,
  purge_batch, encode_record,
}
use tsoracle.LogStore.Database.{
  WriteOutcome, written, failed_in_place, failed_unwritten, in_place, log_family, meta_family,
  BatchOp, put_cf, delete_cf, delete_range_cf, Content, lt_bytes, retain_keys, apply_op,
  apply_batch,
}
use tsoracle.LogStore.Keys.{
  KeySpace, MetaLabel, vote, committed, last_purged, as_bytes, to_be_bytes, zeros, ones,
  group_prefixed,
}
use tsoracle.LogStore.Keys.Order.{
  IsKeySpace, group_prefixed-IsKeySpace, in_range, at_most_trans, below_trans, not_above_of_below,
  cmp_bytes-append, length-to_be_bytes, cmp-to_be_bytes,
}
use tsoracle.LogStore.Slices.{retain-none, retain-insert, retain-Sorted}
use tsoracle.LogStore.Matches.{Matches}
use tsoracle.LogStore.Refinement.{
  Log, Change, appended, truncated, purged_to, voted_for, agreed_on, OnOk, perform, InBounds,
  Refines, Written,
}
use tsoracle.LogStore.Runs.{run}
use tsoracle.LogStore.Changes.{on_bind, in_parts}

-- No key of `g` is one of `h`, and what `g` may delete holds none of `h`.
pub record Apart (g h : KeySpace) : Type 0 where
  pub logs : (i : ℕ) → i < 2 ^ 64 → in_range h (g.log_key i) ≡ false
  pub ranges :
      (k : List ℕ)
      → in_range h k ≡ true
      → (lt_bytes k g.range_lo || not (lt_bytes k g.log_end_bound)) ≡ true
  pub metas : (l m : MetaLabel) → same (h.meta_key m) (g.meta_key l) ≡ false

module _ (h : KeySpace) where
  -- An operation that touches no key of `h`.
  abbrev Harmless : BatchOp → Type 0
  Harmless (put_cf log_family k v) = in_range h k ≡ false
  Harmless (put_cf meta_family k v) = (m : MetaLabel) → same (h.meta_key m) k ≡ false
  Harmless (delete_cf log_family k) = ⊥
  Harmless (delete_cf meta_family k) = (m : MetaLabel) → same (h.meta_key m) k ≡ false
  Harmless (delete_range_cf log_family from to) =
      (k : List ℕ) → in_range h k ≡ true → (lt_bytes k from || not (lt_bytes k to)) ≡ true
  Harmless (delete_range_cf meta_family from to) = ⊥

  abbrev SameLog : Content → Content → Type 0
  SameLog c c' = (retain_keys (in_range h) c' ≡ retain_keys (in_range h) c) × Sorted c'

  abbrev SameMeta : Content → Content → Type 0
  SameMeta c c' = ((m : MetaLabel) → get (h.meta_key m) c' ≡ get (h.meta_key m) c) × Sorted c'

  op-SameLog :
      (op : BatchOp) (c : Content) → Harmless op → Sorted c → SameLog c (apply_op log_family op c)
  unfolding apply_op
  op-SameLog (put_cf log_family k v) c p o =
      (retain-insert (in_range h) k v c o ∙ rw p refl, insert-Sorted k v c o)
  op-SameLog (put_cf meta_family k v) c p o = (refl, o)
  op-SameLog (delete_cf log_family k) c p o = absurd p
  op-SameLog (delete_cf meta_family k) c p o = (refl, o)
  op-SameLog (delete_range_cf log_family from to) c p o = (
    retain-none (in_range h) (λ k. lt_bytes k from || not (lt_bytes k to)) c p,
    retain-Sorted _ c o,
  )
  op-SameLog (delete_range_cf meta_family from to) c p o = absurd p

  op-SameMeta :
      (op : BatchOp) (c : Content) → Harmless op → Sorted c → SameMeta c (apply_op meta_family op c)
  unfolding apply_op
  op-SameMeta (put_cf log_family k v) c p o = (λ m. refl, o)
  op-SameMeta (put_cf meta_family k v) c p o = (
    λ m.
        get-insert (h.meta_key m) k v c
        ∙ ap (λ b. if b then some v else get (h.meta_key m) c) (p m),
    insert-Sorted k v c o,
  )
  op-SameMeta (delete_cf log_family k) c p o = absurd p
  op-SameMeta (delete_cf meta_family k) c p o = (
    λ m. get-remove (h.meta_key m) k c o ∙ ap (λ b. if b then none else get (h.meta_key m) c) (p m),
    remove-Sorted k c o,
  )
  op-SameMeta (delete_range_cf log_family from to) c p o = (λ m. refl, o)
  op-SameMeta (delete_range_cf meta_family from to) c p o = absurd p

  batch-SameLog :
      (batch : List BatchOp) (c : Content)
      → All Harmless batch
      → Sorted c
      → SameLog c (apply_batch log_family batch c)
  unfolding apply_batch
  batch-SameLog [] c p o = (refl, o)
  batch-SameLog (op ∷ batch) c (p, ps) o =
      let (e, o') = op-SameLog op c p o in
      let (f, o'') = batch-SameLog batch (apply_op log_family op c) ps o' in (f ∙ e, o'')

  batch-SameMeta :
      (batch : List BatchOp) (c : Content)
      → All Harmless batch
      → Sorted c
      → SameMeta c (apply_batch meta_family batch c)
  unfolding apply_batch
  batch-SameMeta [] c p o = (λ m. refl, o)
  batch-SameMeta (op ∷ batch) c (p, ps) o =
      let (e, o') = op-SameMeta op c p o in
      let (f, o'') = batch-SameMeta batch (apply_op meta_family op c) ps o' in (λ m. f m ∙ e m, o'')

  module _ {D E V L : Type 0} (s : Store D E V L) where
    -- The store of the other group on the same database.
    abbrev pub neighbour : Store D E V L
    neighbour = record s { keys = h }

    write-Keeps :
        (r : Result IoError (List BatchOp)) (d : D) (a : Log E V L)
        → OnOk r (All Harmless)
        → Refines neighbour d a
        → Refines neighbour (write_batch s r d).1 a
    unfolding write_batch decode_found read_meta read_vote read_committed
    write-Keeps (err e) d a p n = n
    write-Keeps (ok batch) d a p n =
        go (s.db.write batch d) (λ d' e f. s.db.write_lem batch d d' f e)
      where
        keeps : (d' : D) → Written s batch d d' → Refines neighbour d' a
        keeps d' w =
            let logs =
              batch-SameLog batch (s.db.scan log_family d) p (s.db.scan_sorted log_family d) in
            let metas =
              batch-SameMeta batch (s.db.scan meta_family d) p (s.db.scan_sorted meta_family d) in
            let there = λ (m : MetaLabel). ap (get (h.meta_key m)) (w meta_family) ∙ metas.0 m in
            record {
              rows =
                  subst (λ c. Matches neighbour c a.entries)
                    (sym (ap (retain_keys (in_range h)) (w log_family) ∙ logs.0)) n.rows;
              purged = ap (decode_found s.log_ids) (there last_purged) ∙ n.purged;
              voted = ap (decode_found s.votes) (there vote) ∙ n.voted;
              agreed = ap (decode_found s.log_ids) (there committed) ∙ n.agreed;
            }

        go :
            (o : WriteOutcome D)
            → ((d' : D) → in_place o ≡ some d' → Written s batch d d')
            → Refines neighbour (settle d o).1 a
        go failed_unwritten w = n
        go (failed_in_place d') w = keeps d' (w d' refl)
        go (written d') w = keeps d' (w d' refl)

    module _ (apart : Apart s.keys h) (ks : IsKeySpace s.keys) where
      put_meta-Harmless :
          {A : Type 0} (codec : Body A) (label : MetaLabel) (x : A)
          → OnOk (put_meta s codec label x) Harmless
      unfolding put_meta
      put_meta-Harmless codec label x =
          on_bind (encode_record codec s.active_write_version x) _ (λ b. Unit {0}) Harmless
            (always (encode_record codec s.active_write_version x)) (λ b u. apart.metas label)
        where
          always : (r : Result IoError (List ℕ)) → OnOk r (λ b. Unit {0})
          always (ok b) = tt
          always (err e) = tt

      append-Harmless :
          (es : List E)
          → All (λ e. s.index (s.log_id e) < u64_max) es
          → OnOk (append_batch s es) (All Harmless)
      unfolding append_batch
      append-Harmless [] b = tt
      append-Harmless (e ∷ es) (b, bs) =
          step (encode_record s.entries s.active_write_version e) (append_batch s es)
            (append-Harmless es bs)
        where
          step :
              (r : Result IoError (List ℕ)) (rest : Result IoError (List BatchOp))
              → OnOk rest (All Harmless)
              → OnOk
                  (r >>= λ value. rest >>= λ batch.
                    ok (put_cf log_family (s.keys.log_key (s.index (s.log_id e))) value ∷ batch))
                  (All Harmless)
          step (err x) rest q = tt
          step (ok value) (err x) q = tt
          step (ok value) (ok batch) q = (apart.logs (s.index (s.log_id e)) (omega arith), q)

      -- From a key of the log on, and up to one: neither reaches another group.
      from-Harmless :
          (n : ℕ)
          → n < 2 ^ 64
          → Harmless (delete_range_cf log_family (s.keys.log_key n) s.keys.log_end_bound)
      from-Harmless n b k r = elim (Bool-cases (lt_bytes k s.keys.range_lo)) [
        | inl below ↦
            rw (below_trans k s.keys.range_lo (s.keys.log_key n) below (ks.above_lo n b)) refl
        | inr above ↦ ground (arith, apart.ranges k r)
      ]

      to-Harmless :
          (n : ℕ)
          → n < 2 ^ 64
          → Harmless (delete_range_cf log_family s.keys.range_lo (s.keys.log_key n))
      to-Harmless n b k r = elim (Bool-cases (lt_bytes k s.keys.range_lo)) [
        | inl below ↦ rw below refl
        | inr above ↦ ground (
          arith,
          apart.ranges k r,
          at_most_trans (s.keys.log_key n) s.keys.log_end_bound k (
              not_above_of_below (s.keys.log_key n) s.keys.log_end_bound
                (ks.before_end (s.keys.log_key n) (ks.below_hi n b))),
        )
      ]

      checked_next :
          (n : ℕ) → n < u64_max → purge_end s (checked_add_u64 n 1) ≡ s.keys.log_key (n + 1)
      checked_next n b = ground arith

      -- Whatever a store does, with indices below the largest word, another group's store on the
      -- same database stands for the same log as before, vote and ids included, where no key of the
      -- one is a key of the other.
      pub perform-Keeps :
          (c : Change E V L) (d : D) (a : Log E V L)
          → InBounds s c
          → Refines neighbour d a
          → Refines neighbour (perform s c d).1 a
      unfolding perform append truncate_after purge purge_batch save_vote save_committed
      perform-Keeps (appended es) d a b n =
          write-Keeps (append_batch s es) d a (append-Harmless es b) n
      perform-Keeps (truncated none) d a b n =
          write-Keeps (ok _) d a (from-Harmless 0 (omega arith), tt) n
      perform-Keeps (truncated (some id)) d a b n =
          write-Keeps (ok _) d a (from-Harmless (s.index id + 1) (omega arith), tt) n
      perform-Keeps (purged_to id) d a b n =
          write-Keeps (purge_batch s id) d a
            (on_bind (put_meta s s.log_ids last_purged id) _ Harmless (All Harmless)
              (put_meta-Harmless s.log_ids last_purged id)
              (λ op p. (
                rw (checked_next (s.index id) b) (to-Harmless (s.index id + 1) (omega arith)),
                (p, tt),
              )))
            n
      perform-Keeps (voted_for v) d a b n =
          write-Keeps _ d a
            (on_bind (put_meta s s.votes vote v) _ Harmless (All Harmless)
              (put_meta-Harmless s.votes vote v) (λ op p. (p, tt)))
            n
      perform-Keeps (agreed_on (some id)) d a b n =
          write-Keeps _ d a
            (on_bind (put_meta s s.log_ids committed id) _ Harmless (All Harmless)
              (put_meta-Harmless s.log_ids committed id) (λ op p. (p, tt)))
            n
      perform-Keeps (agreed_on none) d a b n =
          write-Keeps (ok (delete_cf meta_family (s.keys.meta_key committed) ∷ [])) d a
            (apart.metas committed, tt) n

-- Keys that start with words of eight bytes compare by those words, where they differ.
prefix_cmp :
    (g h : ℕ) (x y : List ℕ)
    → g < 2 ^ 64
    → h < 2 ^ 64
    → g ≢ h
    → cmp_bytes (to_be_bytes 8 g ++ x) (to_be_bytes 8 h ++ y) ≡ compare g h
prefix_cmp g h x y b c ne =
    cmp_bytes-append (to_be_bytes 8 g) (to_be_bytes 8 h) x y
      (length-to_be_bytes 8 g ∙ sym (length-to_be_bytes 8 h))
    ∙ ap (λ o. then_cmp o (cmp_bytes x y)) (cmp-to_be_bytes 8 g h b c)
    ∙ decided (cmp_bytes x y)
  where
    decided : (o : Ordering) → then_cmp (compare g h) o ≡ compare g h
    decided o = ground arith

-- `a` is not above `b`, and `b` below `c`.
up_to_below : (a b c : List ℕ) → lt_bytes b a ≡ false → lt_bytes b c ≡ true → lt_bytes a c ≡ true
up_to_below a b c h k = ground (arith, bytes_trans a b c, bytes_eq b a, bytes_lt b a)

either_side :
    (g h : ℕ) (k : List ℕ)
    → g < 2 ^ 64
    → h < 2 ^ 64
    → g ≢ h
    → lt_bytes k (to_be_bytes 8 h ++ zeros) ≡ false
    → lt_bytes (to_be_bytes 8 h ++ ones) k ≡ false
    → (lt_bytes k (to_be_bytes 8 g ++ zeros)
        || not (lt_bytes k ((to_be_bytes 8 g ++ ones) ++ (0 ∷ []))))
      ≡ true
either_side g h k b c ne above below = rw (append_assoc (to_be_bytes 8 g) ones (0 ∷ [])) (
    ground (
      arith,
      prefix_cmp g h (ones ++ (0 ∷ [])) zeros b c ne,
      prefix_cmp h g zeros (ones ++ (0 ∷ [])) c b (λ e. ne (sym e)),
      prefix_cmp h g ones zeros c b (λ e. ne (sym e)),
      at_most_trans (to_be_bytes 8 g ++ (ones ++ (0 ∷ []))) (to_be_bytes 8 h ++ zeros) k,
      up_to_below k (to_be_bytes 8 h ++ ones) (to_be_bytes 8 g ++ zeros),
    ))

-- Two groups with ids of their own have no key in common.
pub group_prefixed-Apart :
    (g h : ℕ) → g < 2 ^ 64 → h < 2 ^ 64 → g ≢ h → Apart (group_prefixed g) (group_prefixed h)
group_prefixed-Apart g h b c ne = record {
  logs = λ i k. ground (
    arith,
    prefix_cmp g h (to_be_bytes 8 i) zeros b c ne,
    prefix_cmp h g ones (to_be_bytes 8 i) c b (λ e. ne (sym e)),
  );
  ranges = λ k r. either_side g h k b c ne (in_parts _ _ r).0 (in_parts _ _ r).1;
  metas = λ l m.
      ground (arith, prefix_cmp h g (b'/' ∷ as_bytes m) (b'/' ∷ as_bytes l) c b (λ e. ne (sym e)));
}

module _ {D E V L : Type 0} where
  abbrev pub with_group : ℕ → Store D E V L → Store D E V L
  with_group g s = record s { keys = group_prefixed g }

  -- Two groups with different ids of 64 bits share a database. Through any run of appends,
  -- truncations, purges, votes and commits of the one, of which some may fail, with indices below
  -- the largest word, the database stands for the same log, vote, purged and committed ids of the
  -- other as before.
  pub run-Keeps :
      (s : Store D E V L) (g h : ℕ) (cs : List (Change E V L)) (d : D) (a : Log E V L)
      → g < 2 ^ 64
      → h < 2 ^ 64
      → g ≢ h
      → All (InBounds (with_group g s)) cs
      → Refines (with_group h s) d a
      → Refines (with_group h s) (run (with_group g s) cs d) a
  unfolding run
  run-Keeps s g h [] d a b c ne i n = n
  run-Keeps s g h (x ∷ cs) d a b c ne (i, is) n =
      run-Keeps s g h cs (perform (with_group g s) x d).1 a b c ne is (
        perform-Keeps (group_prefixed h) (with_group g s) (group_prefixed-Apart g h b c ne)
          (group_prefixed-IsKeySpace g) x d a i n)
