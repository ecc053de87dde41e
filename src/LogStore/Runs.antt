-- ===== src/LogStore/Runs.antt =====
-- The store over any run of changes: what it answers is what the log that it stands for holds.
use mathlib.Core.Path.{subst}
use tsoracle.Prelude.{
  ◌≤◌, ◌≡◌, ◌∙◌, sym, ap, refl, false, none, some, List, [], ◌∷◌, ok, ◌>>=◌, if◌then◌else◌, All,
  inl, inr, Bool-cases,
}
use tsoracle.BTreeMap.{bytes_ord, same, same_refl, get, get-remove}
use tsoracle.LogStore.{
  Store, Bound, or_else, put_meta, read_meta, read_vote, read_committed, try_get_log_entries,
  get_log_state, save_committed, min_readable_version, max_readable_version, decode_found,
}
use tsoracle.LogStore.Database.{
  log_family, meta_family, delete_cf, retain_keys, apply_op, apply_batch,
}
use tsoracle.LogStore.Keys.{MetaLabel, vote, committed, last_purged}
use tsoracle.LogStore.Keys.Order.{IsKeySpace, in_range}
use tsoracle.LogStore.Matches.{Matches, entries_of}
use tsoracle.LogStore.Reads.{within, IsBound, try_get_log_entries_lem}
use tsoracle.LogStore.Last.{last_entry, last_log_id_in_cf_lem}
use tsoracle.LogStore.Refinement.{
  Log, Change, appended, truncated, purged_to, voted_for, agreed_on, perform, after, InBounds,
  Refines, write-Refines, put_meta-Reads, same_label, read-other,
}
use tsoracle.LogStore.Changes.{
  on_bind, put_reads, append-Refines, truncate-Refines, purge-Refines, vote-Refines,
}

module _ {D E V L : Type 0} (s : Store D E V L) (ks : IsKeySpace s.keys)
    (low : min_readable_version ≤ s.active_write_version)
    (high : s.active_write_version ≤ max_readable_version) where
  agree-Refines :
      (id : L) (d : D) (a : Log E V L)
      → Refines s d a
      → Refines s (perform s (agreed_on (some id)) d).1 (after s (agreed_on (some id)) d a)
  unfolding perform save_committed apply_batch apply_op read_vote read_committed
  agree-Refines id d a h =
      write-Refines s (put_meta s s.log_ids committed id >>= λ op. ok (op ∷ [])) d
        (agreed_on (some id)) a h
        (on_bind (put_meta s s.log_ids committed id) _ _ _
          (put_meta-Reads s low high s.log_ids committed id)
          (λ op p d' w.
            let (bytes, is_put, dec) = p in
            let meta =
              w meta_family ∙ ap (λ o. apply_op meta_family o (s.db.scan meta_family d)) is_put in
            let logs =
              w log_family ∙ ap (λ o. apply_op log_family o (s.db.scan log_family d)) is_put in
            record {
              rows =
                  subst (λ c. Matches s (retain_keys (in_range s.keys) c) a.entries) (sym logs)
                    h.rows;
              purged =
                  (put_reads s ks low high s.log_ids s.log_ids committed last_purged bytes id d d'
                      meta dec).1
                    (λ e. cc)
                  ∙ h.purged;
              voted =
                  (put_reads s ks low high s.log_ids s.votes committed vote bytes id d d' meta
                      dec).1
                    (λ e. cc)
                  ∙ h.voted;
              agreed =
                  (put_reads s ks low high s.log_ids s.log_ids committed committed bytes id d d'
                    meta dec).0;
            }))

  other_key :
      (m label : MetaLabel)
      → (label ≡ m → ⊥)
      → same (s.keys.meta_key m) (s.keys.meta_key label) ≡ false
  other_key m label ne = elim (Bool-cases (same (s.keys.meta_key m) (s.keys.meta_key label))) [
    | inl e ↦ absurd (ne (sym (same_label s low high ks m label e)))
    | inr e ↦ e
  ]

  disagree-Refines :
      (d : D) (a : Log E V L)
      → Refines s d a
      → Refines s (perform s (agreed_on none) d).1 (after s (agreed_on none) d a)
  unfolding perform save_committed apply_batch apply_op read_vote read_committed read_meta
  disagree-Refines d a h =
      let key = s.keys.meta_key committed in
      let c = s.db.scan meta_family d in
      write-Refines s (ok (delete_cf meta_family key ∷ [])) d (agreed_on none) a h (λ d' w.
        let there = λ (m : MetaLabel).
          ap (get (s.keys.meta_key m)) (w meta_family)
          ∙ get-remove (s.keys.meta_key m) key c (s.db.scan_sorted meta_family d) in
        record {
          rows =
              subst (λ c. Matches s (retain_keys (in_range s.keys) c) a.entries)
                (sym (w log_family)) h.rows;
          purged =
              read-other s low high ks s.log_ids last_purged d d'
                (there last_purged ∙ rw (other_key last_purged committed (λ e. cc)) refl)
              ∙ h.purged;
          voted =
              read-other s low high ks s.votes vote d d'
                (there vote ∙ rw (other_key vote committed (λ e. cc)) refl)
              ∙ h.voted;
          agreed =
              ap (decode_found s.log_ids)
                (there committed ∙ ap (λ b. if b then none else get key c) (same_refl key));
        })

  perform-Refines :
      (c : Change E V L) (d : D) (a : Log E V L)
      → InBounds s c
      → Refines s d a
      → Refines s (perform s c d).1 (after s c d a)
  perform-Refines (appended es) d a b h = append-Refines s ks low high es d a b h
  perform-Refines (truncated last) d a b h = truncate-Refines s ks low high last d a b h
  perform-Refines (purged_to id) d a b h = purge-Refines s ks low high id d a b h
  perform-Refines (voted_for v) d a b h = vote-Refines s ks low high v d a h
  perform-Refines (agreed_on (some id)) d a b h = agree-Refines id d a h
  perform-Refines (agreed_on none) d a b h = disagree-Refines d a h

module _ {D E V L : Type 0} (s : Store D E V L) where
  -- The store after a run, and the log after those of its changes that are in place.
  unfoldable pub run : List (Change E V L) → D → D
  run [] d = d
  run (c ∷ cs) d = run cs (perform s c d).1

  unfoldable pub run_log : List (Change E V L) → D → Log E V L → Log E V L
  run_log [] d a = a
  run_log (c ∷ cs) d a = run_log cs (perform s c d).1 (after s c d a)

module _ {D E V L : Type 0} (s : Store D E V L) (ks : IsKeySpace s.keys)
    (low : min_readable_version ≤ s.active_write_version)
    (high : s.active_write_version ≤ max_readable_version) where
  pub run-Refines :
      (cs : List (Change E V L)) (d : D) (a : Log E V L)
      → All (InBounds s) cs
      → Refines s d a
      → Refines s (run s cs d) (run_log s cs d a)
  unfolding run run_log
  run-Refines [] d a b h = h
  run-Refines (c ∷ cs) d a (b, bs) h =
      run-Refines cs _ _ bs (perform-Refines s ks low high c d a b h)

  -- A store whose layout of keys keeps its promises, and whose write version is readable. From a
  -- database that stands for a log, after any run of appends, truncations, purges, votes and
  -- commits, of which some may fail, with their batch in place or without, and indices below the
  -- largest word: a read of a range of indices answers the entries of the log that lie in it, in
  -- order; the state is the last purged id with the last entry's id, or else the purged one; and the
  -- vote and the committed id are the last ones saved. The log changes as the changes say that were
  -- answered without an error, and those that failed with their batch in place.
  pub run-reads :
      (cs : List (Change E V L)) (d : D) (a : Log E V L) (from to : Bound)
      → All (InBounds s) cs
      → Refines s d a
      → IsBound from
      → IsBound to
      → (try_get_log_entries s from to (run s cs d)
          ≡ ok (entries_of s (retain_keys (within from to) (run_log s cs d a).entries)))
        × (get_log_state s (run s cs d)
            ≡ ok (record {
              last_purged_log_id = (run_log s cs d a).purged;
              last_log_id =
                  or_else (last_entry s (run_log s cs d a).entries) (run_log s cs d a).purged;
            }))
        × (read_vote s (run s cs d) ≡ ok (run_log s cs d a).voted)
        × (read_committed s (run s cs d) ≡ ok (run_log s cs d a).agreed)
  unfolding get_log_state
  run-reads cs d a from to b h f t =
      let after = run-Refines cs d a b h in
      (
        try_get_log_entries_lem s ks from to (run s cs d) (run_log s cs d a).entries f t after.rows,
        rw after.purged
            (rw (last_log_id_in_cf_lem s (run s cs d) (run_log s cs d a).entries after.rows) refl),
        after.voted,
        after.agreed,
      )
