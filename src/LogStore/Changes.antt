-- ===== src/LogStore/Changes.antt =====
-- Every change of the store is the change of the log that it promises.
use mathlib.Core.Path.{subst}
use tsoracle.Prelude.{
  ℕ, ◌+◌, ◌≤◌, ◌<◌, ◌≡◌, ◌∙◌, sym, ap, refl, Bool, true, false, not, ◌&&◌, ◌||◌, ltb, Option, none,
  some, List, [], ◌∷◌, Result, ok, err, ◌>>=◌, u64_max, checked_add_u64, arith, inl, inr,
  Bool-cases,
}
use tsoracle.BTreeMap.{BTreeMap, bytes_ord, nat_ord, same, same_refl, get, insert, get-insert}
use tsoracle.LogStore.{
  Store, IoError, Body, decode_record, read_meta, put_meta, read_vote, save_vote, next_index,
  purge_end, read_committed, append_batch, append, truncate_after, purge, purge_batch,
  min_readable_version, max_readable_version,
}
use tsoracle.LogStore.Database.{
  log_family, meta_family, delete_range_cf, Content, lt_bytes, retain_keys, apply_op, apply_batch,
}
use tsoracle.LogStore.Keys.{MetaLabel, vote, committed, last_purged}
use tsoracle.LogStore.Keys.Order.{IsKeySpace, in_range}
use tsoracle.LogStore.Slices.{retain-narrow}
use tsoracle.LogStore.Matches.{Matches, Matches-retain}
use tsoracle.LogStore.Refinement.{
  Log, appended, truncated, purged_to, voted_for, OnOk, perform, insert_all, up_to, after, InBounds,
  Refines, write-Refines, put_meta-Reads, same_label, read-put, read-other, Appends, append-Appends,
}

pub on_ok :
    {A : Type 0} (r : Result IoError A) (P Q : A → Type 0)
    → OnOk r P
    → ((x : A) → P x → Q x)
    → OnOk r Q
on_ok (ok x) P Q h k = k x h
on_ok (err e) P Q h k = tt

pub on_bind :
    {A B : Type 0} (r : Result IoError A) (f : A → Result IoError B) (P : A → Type 0)
    (Q : B → Type 0)
    → OnOk r P
    → ((x : A) → P x → OnOk (f x) Q)
    → OnOk (r >>= f) Q
on_bind (ok x) f P Q h k = k x h
on_bind (err e) f P Q h k = tt

pub in_parts : (a b : Bool) → (not a && not b) ≡ true → (a ≡ false) × (b ≡ false)
in_parts a b h = ground arith

module _ {D E V L : Type 0} (s : Store D E V L) (ks : IsKeySpace s.keys)
    (low : min_readable_version ≤ s.active_write_version)
    (high : s.active_write_version ≤ max_readable_version) where
  -- Where the metadata stays, so do its reads.
  keep_meta :
      {A : Type 0} (codec : Body A) (label : MetaLabel) (d d' : D)
      → s.db.scan meta_family d' ≡ s.db.scan meta_family d
      → read_meta s codec label d' ≡ read_meta s codec label d
  keep_meta codec label d d' h =
      read-other s low high ks codec label d d' (ap (get (s.keys.meta_key label)) h)

  pub append-Refines :
      (es : List E) (d : D) (a : Log E V L)
      → InBounds s (appended es)
      → Refines s d a
      → Refines s (perform s (appended es) d).1 (after s (appended es) d a)
  unfolding perform append read_vote read_committed
  append-Refines es d a b h = write-Refines s (append_batch s es) d (appended es) a h (
      on_ok (append_batch s es) (Appends s low high ks es) _ (append-Appends s low high ks es b)
        (λ batch p d' w.
          let meta = w meta_family ∙ p.1 (s.db.scan meta_family d) in
          record {
            rows =
                subst (λ c. Matches s (retain_keys (in_range s.keys) c) (insert_all s es a.entries))
                  (sym (w log_family))
                  (p.0 (s.db.scan log_family d) a.entries (s.db.scan_sorted log_family d) h.rows);
            purged = keep_meta s.log_ids last_purged d d' meta ∙ h.purged;
            voted = keep_meta s.votes vote d d' meta ∙ h.voted;
            agreed = keep_meta s.log_ids committed d d' meta ∙ h.agreed;
          }))

  -- A deletion of a range of this store's log is a selection of its rows.
  delete-Matches :
      (q r : List ℕ → Bool) (t : ℕ → Bool) (c : Content) (m : BTreeMap ℕ E)
      → ((k : List ℕ) → in_range s.keys k ≡ true → q k ≡ r k)
      → ((i : ℕ) → i < u64_max → r (s.keys.log_key i) ≡ t i)
      → Matches s (retain_keys (in_range s.keys) c) m
      → Matches s (retain_keys (in_range s.keys) (retain_keys q c)) (retain_keys t m)
  delete-Matches q r t c m h k rows =
      subst (λ x. Matches s x (retain_keys t m)) (sym (retain-narrow (in_range s.keys) q r c h))
        (Matches-retain s ks r t (retain_keys (in_range s.keys) c) m k rows)

  next_lem :
      (last : Option L) (i : ℕ)
      → i < u64_max
      → InBounds s (truncated last)
      → lt_bytes (s.keys.log_key i) (s.keys.log_key (next_index s last)) ≡ up_to s last i
  next_lem none i h b = ground (arith, ks.ordered i 0 (omega arith) (omega arith))
  next_lem (some id) i h b =
      ground (arith, ks.ordered i (s.index id + 1) (omega arith) (omega arith))

  pub truncate-Refines :
      (last : Option L) (d : D) (a : Log E V L)
      → InBounds s (truncated last)
      → Refines s d a
      → Refines s (perform s (truncated last) d).1 (after s (truncated last) d a)
  unfolding perform truncate_after apply_batch apply_op read_vote read_committed
  truncate-Refines last d a b h =
      let from = s.keys.log_key (next_index s last) in
      write-Refines s (ok (delete_range_cf log_family from s.keys.log_end_bound ∷ [])) d
        (truncated last) a h
        (λ d' w. record {
          rows =
              subst
                (λ c.
                  Matches s (retain_keys (in_range s.keys) c)
                    (retain_keys (up_to s last) a.entries))
                (sym (w log_family))
                (delete-Matches (λ k. lt_bytes k from || not (lt_bytes k s.keys.log_end_bound))
                  (λ k. lt_bytes k from) (up_to s last) (s.db.scan log_family d) a.entries
                  (λ k r. rw (ks.before_end k (in_parts _ _ r).1) (ground arith))
                  (λ i l. next_lem last i l b) h.rows);
          purged = keep_meta s.log_ids last_purged d d' (w meta_family) ∙ h.purged;
          voted = keep_meta s.votes vote d d' (w meta_family) ∙ h.voted;
          agreed = keep_meta s.log_ids committed d d' (w meta_family) ∙ h.agreed;
        })

  -- After a batch that puts a label's record, that label reads as it and the others as before.
  pub put_reads :
      {A B : Type 0} (codec : Body A) (other : Body B) (label m : MetaLabel) (bytes : List ℕ)
      (x : A) (d d' : D)
      → s.db.scan meta_family d' ≡ insert (s.keys.meta_key label) bytes (s.db.scan meta_family d)
      → decode_record codec bytes ≡ ok x
      → (read_meta s codec label d' ≡ ok (some x))
        × ((label ≡ m → ⊥) → read_meta s other m d' ≡ read_meta s other m d)
  put_reads codec other label m bytes x d d' h e =
      let key = s.keys.meta_key label in
      let c = s.db.scan meta_family d in
      (
        read-put s low high ks codec label bytes x d'
            (ap (get key) h ∙ get-insert key key bytes c ∙ rw (same_refl key) refl) e,
        λ ne. read-other s low high ks other m d d' (
            ap (get (s.keys.meta_key m)) h
            ∙ get-insert (s.keys.meta_key m) key bytes c
            ∙ rw (other_key m label ne) refl),
      )
    where
      other_key :
          (m label : MetaLabel)
          → (label ≡ m → ⊥)
          → same (s.keys.meta_key m) (s.keys.meta_key label) ≡ false
      other_key m label ne = elim (Bool-cases (same (s.keys.meta_key m) (s.keys.meta_key label))) [
        | inl e ↦ absurd (ne (sym (same_label s low high ks m label e)))
        | inr e ↦ e
      ]

  checked_next : (n : ℕ) → n < u64_max → purge_end s (checked_add_u64 n 1) ≡ s.keys.log_key (n + 1)
  checked_next n h = ground arith

  pub purge-Refines :
      (id : L) (d : D) (a : Log E V L)
      → InBounds s (purged_to id)
      → Refines s d a
      → Refines s (perform s (purged_to id) d).1 (after s (purged_to id) d a)
  unfolding perform purge purge_batch apply_batch apply_op read_vote read_committed
  purge-Refines id d a b h =
      let to = purge_end s (checked_add_u64 (s.index id) 1) in
      write-Refines s (purge_batch s id) d (purged_to id) a h (
        on_bind (put_meta s s.log_ids last_purged id) _ _ _
          (put_meta-Reads s low high s.log_ids last_purged id)
          (λ op p d' w.
            let (bytes, is_put, dec) = p in
            let meta =
              w meta_family ∙ ap (λ o. apply_op meta_family o (s.db.scan meta_family d)) is_put in
            let logs =
              w log_family
              ∙ ap
                  (λ o. apply_op log_family o (
                    retain_keys (λ k. lt_bytes k s.keys.range_lo || not (lt_bytes k to))
                      (s.db.scan log_family d)))
                  is_put in
            record {
              rows =
                  subst
                    (λ c.
                      Matches s (retain_keys (in_range s.keys) c)
                        (retain_keys (λ i. ltb (s.index id) i) a.entries))
                    (sym logs)
                    (delete-Matches (λ k. lt_bytes k s.keys.range_lo || not (lt_bytes k to))
                      (λ k. not (lt_bytes k to)) (λ i. ltb (s.index id) i) (s.db.scan log_family d)
                      a.entries (λ k r. rw (in_parts _ _ r).0 refl)
                      (λ i l.
                        rw (checked_next (s.index id) b) (
                          ground
                            (arith, ks.ordered i (s.index id + 1) (omega arith) (omega arith))))
                      h.rows);
              purged =
                  (put_reads s.log_ids s.log_ids last_purged last_purged bytes id d d' meta dec).0;
              voted =
                  (put_reads s.log_ids s.votes last_purged vote bytes id d d' meta dec).1 (λ e. cc)
                  ∙ h.voted;
              agreed =
                  (put_reads s.log_ids s.log_ids last_purged committed bytes id d d' meta dec).1
                    (λ e. cc)
                  ∙ h.agreed;
            }))

  pub vote-Refines :
      (v : V) (d : D) (a : Log E V L)
      → Refines s d a
      → Refines s (perform s (voted_for v) d).1 (after s (voted_for v) d a)
  unfolding perform save_vote apply_batch apply_op read_vote read_committed
  vote-Refines v d a h =
      write-Refines s (put_meta s s.votes vote v >>= λ op. ok (op ∷ [])) d (voted_for v) a h (
        on_bind (put_meta s s.votes vote v) _ _ _ (put_meta-Reads s low high s.votes vote v)
          (λ op p d' w.
            let (bytes, is_put, dec) = p in
            let meta =
              w meta_family ∙ ap (λ o. apply_op meta_family o (s.db.scan meta_family d)) is_put in
            let logs =
              w log_family ∙ ap (λ o. apply_op log_family o (s.db.scan log_family d)) is_put in
            record {
              rows =
                  subst (λ c. Matches s (retain_keys (in_range s.keys) c) a.entries) (sym logs)
                    h.rows;
              purged =
                  (put_reads s.votes s.log_ids vote last_purged bytes v d d' meta dec).1 (λ e. cc)
                  ∙ h.purged;
              voted = (put_reads s.votes s.votes vote vote bytes v d d' meta dec).0;
              agreed =
                  (put_reads s.votes s.log_ids vote committed bytes v d d' meta dec).1 (λ e. cc)
                  ∙ h.agreed;
            }))
