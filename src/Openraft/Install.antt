-- ===== src/Openraft/Install.antt =====
-- A snapshot that one state machine builds, taken by another one.
use mathlib.Core.Path.{subst}
use tsoracle.Prelude.{
  ℕ, ◌≤◌, ◌==◌, ◌≡◌, refl, sym, ap, ◌∙◌, Bool, true, if◌then◌else◌, Option, none, some, Result, ok,
  err, ◌>>=◌, arith, Bool-cases, inl, inr,
}
use tsoracle.BTreeMap.Ord.{Ord}
use tsoracle.BTreeMap.{same_refl}
use tsoracle.Openraft.Entries.{baseline_write_version}
use tsoracle.Openraft.Apply.{Frame, SnapMeta, StoredSnapshot, Core, StateMachine}
use tsoracle.Openraft.Codec.{Codecs, Snapshot}
use tsoracle.Openraft.Snapshot.{
  IoError, SaveOutcome, saved, supersedes_published, same_log_id, published, snapshot_of, meta_of,
  check_keys, encode_payload, decode_payload, encode_stored, raised, adopt, publish,
}
use tsoracle.Openraft.Machine.{
  build_snapshot, commit_built, built, install_snapshot, checked_payload, commit_snapshot,
}
use tsoracle.Openraft.RoundTrip.{or_value, as_stored, decode-encode_payload}
use tsoracle.Openraft.Invariant.{IsState}
use tsoracle.Openraft.Replay.{view}

module _ {L S B : Type 0} ⦃o : Ord L⦄ (c : Codecs L S B) where
  built_lem :
      (p q : StoredSnapshot L S B) (x : Result IoError Bool × StateMachine L S B)
      (s : StateMachine L S B)
      → built p x ≡ (ok q, s)
      → p ≡ q
  built_lem p q (ok b, t) s h = ap (λ x. or_value p x.0) h
  built_lem p q (err e, t) s h = cc

  abbrev Parts : StateMachine L S B → StateMachine L S B → StoredSnapshot L S B → Type 0
  Parts past s snap =
      (envelope : Frame B) × (encode_payload c past.active_write_version (snapshot_of past.core)
        ≡ ok snap.snapshot_data)
      × (encode_stored c s.active_write_version (meta_of past.core) snap.snapshot_data
          ≡ ok envelope)
      × (snap.meta ≡ meta_of past.core)

  -- What is known of a build that answers.
  build-Parts :
      (w : SaveOutcome) (past s s' : StateMachine L S B) (snap : StoredSnapshot L S B)
      → build_snapshot c w past s ≡ (ok snap, s')
      → Parts past s snap
  unfolding build_snapshot
  build-Parts w past s s' snap h =
      with_frame (encode_payload c past.active_write_version (snapshot_of past.core)) refl h
    where
      with_envelope :
          (f : Frame B) (x : Result IoError (Frame B))
          → encode_payload c past.active_write_version (snapshot_of past.core) ≡ ok f
          → encode_stored c s.active_write_version (meta_of past.core) f ≡ x
          → commit_built w (meta_of past.core) (x >>= λ envelope. ok (f, envelope)) s
            ≡ (ok snap, s')
          → Parts past s snap
      with_envelope f (err e) p q k = cc
      with_envelope f (ok envelope) p q k =
          let same_snap =
            built_lem (record { meta = meta_of past.core; snapshot_data = f }) snap
              (commit_snapshot w (meta_of past.core) f envelope (λ core. core) s) s' k in
          subst (Parts past s) same_snap (envelope, p, q, refl)

      with_frame :
          (x : Result IoError (Frame B))
          → encode_payload c past.active_write_version (snapshot_of past.core) ≡ x
          → commit_built w
              (meta_of past.core)
              (x >>= λ f.
                encode_stored c s.active_write_version (meta_of past.core) f >>= λ envelope.
                ok (f, envelope))
              s
            ≡ (ok snap, s')
          → Parts past s snap
      with_frame (err e) p k = cc
      with_frame (ok f) p k =
          with_envelope f (encode_stored c s.active_write_version (meta_of past.core) f) p refl k

  pub same_log_id_refl : (l : Option L) → same_log_id l l ≡ true
  same_log_id_refl none = refl
  same_log_id_refl (some l) = same_refl l

  pub as_stored-last_applied :
      (v : ℕ) (s : StateMachine L S B)
      → same_log_id s.core.last_applied (as_stored c v (snapshot_of s.core)).last_applied ≡ true
  as_stored-last_applied v s = elim (Bool-cases (v == baseline_write_version)) [
    | inl base ↦ rw base (same_log_id_refl s.core.last_applied)
    | inr other ↦ rw other (same_log_id_refl s.core.last_applied)
  ]

  -- The checks on the way in, for a payload that is known.
  checked-known :
      (meta : SnapMeta L S) (f : Frame B) (p : Snapshot L S)
      → decode_payload c f ≡ ok p
      → same_log_id meta.last_log_id p.last_applied ≡ true
      → check_keys p.dense ≡ ok tt
      → checked_payload c meta f ≡ ok p
  checked-known meta f p h q k = rw h (rw q (rw k refl))

  checked :
      (v : ℕ) (s : StateMachine L S B) (f : Frame B)
      → IsState s
      → encode_payload c v (snapshot_of s.core) ≡ ok f
      → checked_payload c (meta_of s.core) f ≡ ok (as_stored c v (snapshot_of s.core))
  checked v s f q h =
      checked-known (meta_of s.core) f (as_stored c v (snapshot_of s.core))
        (decode-encode_payload c v (snapshot_of s.core) f q.1 h).0 (as_stored-last_applied v s)
        (elim (Bool-cases (v == baseline_write_version)) [
          | inl base ↦ rw base q.0.2
          | inr other ↦ rw other q.0.2
        ])

  adopted_cap : (cap a : ℕ) → a ≡ cap → (if cap == 0 then a else cap) ≡ cap
  adopted_cap cap a h = ground arith

  abbrev unpublished : Core L S B → Core L S B
  unpublished core = record core { current_snapshot = none }

  adopt-as_stored :
      (v : ℕ) (s f : Core L S B)
      → f.dense_cap ≡ s.dense_cap
      → unpublished (adopt (as_stored c v (snapshot_of s)) f) ≡ unpublished s
  adopt-as_stored v s f h = elim (Bool-cases (v == baseline_write_version)) [
    | inl base ↦ rw base (ap (λ room. unpublished (record s { dense_cap = room })) h)
    | inr other ↦ rw other (
        ap (λ room. unpublished (record s { dense_cap = room }))
          (adopted_cap s.dense_cap f.dense_cap h))
  ]

  raised_lem : (v a : ℕ) → a ≤ v → raised v a ≡ v
  raised_lem v a h = ground arith

  install-known :
      (meta : SnapMeta L S) (d envelope : Frame B) (p : Snapshot L S) (f : StateMachine L S B)
      → checked_payload c meta d ≡ ok p
      → encode_stored c (raised d.version f.active_write_version) meta d ≡ ok envelope
      → supersedes_published meta.last_log_id (published f.core) ≡ true
      → install_snapshot c saved meta d f ≡ (
        ok tt,
        record {
          core = publish meta d (adopt p f.core);
          active_write_version = raised d.version f.active_write_version;
          store = some envelope;
        },
      )
  unfolding install_snapshot commit_snapshot
  install-known meta d envelope p f h e n = rw h (rw e (rw n refl))

  abbrev Installs : StateMachine L S B → Result IoError (Unit {0}) × StateMachine L S B → Type 0
  Installs s x = (x.0 ≡ ok tt) × (view x.1 ≡ view s)

  -- A member of an older or the same format version, of the same cap, whose published snapshot is not newer
  -- than the last entry of `s`: it takes the snapshot that `s` builds, and is then in the state of `s`.
  pub install-build :
      (w : SaveOutcome) (s s' f : StateMachine L S B) (snap : StoredSnapshot L S B)
      → IsState s
      → build_snapshot c w s s ≡ (ok snap, s')
      → f.active_write_version ≤ s.active_write_version
      → f.core.dense_cap ≡ s.core.dense_cap
      → supersedes_published s.core.last_applied (published f.core) ≡ true
      → Installs s (install_snapshot c saved snap.meta snap.snapshot_data f)
  install-build w s s' f snap q h older room newer =
      let v = s.active_write_version in
      let meta = meta_of s.core in
      let d = snap.snapshot_data in
      let p = as_stored c v (snapshot_of s.core) in
      let (envelope, sent, kept, same_meta) = build-Parts w s s s' snap h in
      let version = (decode-encode_payload c v (snapshot_of s.core) d q.1 sent).1 in
      let same_version : raised d.version f.active_write_version ≡ v =
        ap (λ x. raised x f.active_write_version) version
        ∙ raised_lem v f.active_write_version older in
      let result =
        install-known meta d envelope p f (checked v s d q sent)
          (ap (λ x. encode_stored c x meta d) same_version ∙ kept) newer in
      subst (λ m. Installs s (install_snapshot c saved m d f)) (sym same_meta)
        (subst (Installs s) (sym result) (
          refl,
          ap
                (λ x. record {
                  core = unpublished (adopt p f.core);
                  active_write_version = x;
                  store = none;
                })
                same_version
              ∙ ap (λ x. record { core = x; active_write_version = v; store = none })
                  (adopt-as_stored v s.core f.core room),
        ))
