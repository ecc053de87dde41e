-- ===== src/Openraft/Commits.antt =====
-- Where a commit, a build and an install can end.
use mathlib.Core.Path.{subst}
use tsoracle.Prelude.{
  ◌≡◌, refl, sym, Bool, true, some, Result, ok, err, ◌>>=◌, Bool-cases, inl, inr,
}
use tsoracle.BTreeMap.Ord.{Ord}
use tsoracle.Openraft.Apply.{Frame, SnapMeta, StoredSnapshot, Core, StateMachine}
use tsoracle.Openraft.Codec.{Codecs, Snapshot}
use tsoracle.Openraft.Snapshot.{
  IoError, SaveOutcome, saved, failed_before, failed_after, supersedes_published, published,
  publish, encode_payload, encode_stored, meta_of, snapshot_of, raised, adopt,
}
use tsoracle.Openraft.Machine.{
  save_and_publish, commit_snapshot, commit_built, build_snapshot, install_snapshot,
  install_checked, commit_installed, checked_payload, raise, built, installed,
}

module _ {L S B : Type 0} ⦃o : Ord L⦄ where
  -- A commit changes nothing, or publishes and stores a snapshot that is not stale, or stores it only.
  pub commit-any :
      (P : StateMachine L S B → Type 0) (w : SaveOutcome) (meta : SnapMeta L S)
      (d envelope : Frame B) (on_adopt : Core L S B → Core L S B) (s : StateMachine L S B)
      → P s
      → (supersedes_published meta.last_log_id (published s.core) ≡ true
          → P (record s { core = publish meta d (on_adopt s.core); store = some envelope })
            × P (record s { store = some envelope }))
      → P (commit_snapshot w meta d envelope on_adopt s).1
  unfolding commit_snapshot
  commit-any P w meta d envelope on_adopt s q h =
      elim (Bool-cases (supersedes_published meta.last_log_id (published s.core))) [
        | inl newer ↦ rw newer (written w (h newer))
        | inr stale ↦ rw stale q
      ]
    where
      written :
          (w : SaveOutcome)
          → P (record s { core = publish meta d (on_adopt s.core); store = some envelope })
            × P (record s { store = some envelope })
          → P (save_and_publish w meta d envelope on_adopt s).1
      written saved k = k.0
      written failed_before k = q
      written failed_after k = k.1

module _ {L S B : Type 0} ⦃o : Ord L⦄ (c : Codecs L S B) where
  built_state :
      (p : StoredSnapshot L S B) (x : Result IoError Bool × StateMachine L S B)
      → (built p x).1 ≡ x.1
  built_state p (ok b, s) = refl
  built_state p (err e, s) = refl

  installed_state : (x : Result IoError Bool × StateMachine L S B) → (installed x).1 ≡ x.1
  installed_state (ok b, s) = refl
  installed_state (err e, s) = refl

  -- A build ends where it began, or where its commit ends.
  pub build-any :
      (P : StateMachine L S B → Type 0) (w : SaveOutcome) (past s : StateMachine L S B)
      → P s
      → ((f envelope : Frame B)
          → encode_payload c past.active_write_version (snapshot_of past.core) ≡ ok f
          → encode_stored c s.active_write_version (meta_of past.core) f ≡ ok envelope
          → P (commit_snapshot w (meta_of past.core) f envelope (λ core. core) s).1)
      → P (build_snapshot c w past s).1
  unfolding build_snapshot
  build-any P w past s q commits =
      with_frame (encode_payload c past.active_write_version (snapshot_of past.core)) refl
    where
      with_envelope :
          (f : Frame B) (x : Result IoError (Frame B))
          → encode_payload c past.active_write_version (snapshot_of past.core) ≡ ok f
          → encode_stored c s.active_write_version (meta_of past.core) f ≡ x
          → P (commit_built w (meta_of past.core) (x >>= λ envelope. ok (f, envelope)) s).1
      with_envelope f (err e) h k = q
      with_envelope f (ok envelope) h k =
          subst P
            (sym (
              built_state (record { meta = meta_of past.core; snapshot_data = f })
                (commit_snapshot w (meta_of past.core) f envelope (λ core. core) s)))
            (commits f envelope h k)

      with_frame :
          (x : Result IoError (Frame B))
          → encode_payload c past.active_write_version (snapshot_of past.core) ≡ x
          → P
              (commit_built w
                (meta_of past.core)
                (x >>= λ f.
                  encode_stored c s.active_write_version (meta_of past.core) f >>= λ envelope.
                  ok (f, envelope))
                s).1
      with_frame (err e) h = q
      with_frame (ok f) h =
          with_envelope f (encode_stored c s.active_write_version (meta_of past.core) f) h refl

  -- An install ends where it began, with the version cell advanced, or where its commit ends.
  pub install-any :
      (P : StateMachine L S B → Type 0) (w : SaveOutcome) (meta : SnapMeta L S) (f : Frame B)
      (s : StateMachine L S B)
      → P s
      → P (raise f.version s)
      → ((p : Snapshot L S) (envelope : Frame B)
          → checked_payload c meta f ≡ ok p
          → encode_stored c (raised f.version s.active_write_version) meta f ≡ ok envelope
          → P (commit_snapshot w meta f envelope (adopt p) (raise f.version s)).1)
      → P (install_snapshot c w meta f s).1
  unfolding install_snapshot
  install-any P w meta f s q later commits = with_payload (checked_payload c meta f) refl
    where
      with_envelope :
          (p : Snapshot L S) (x : Result IoError (Frame B))
          → checked_payload c meta f ≡ ok p
          → encode_stored c (raised f.version s.active_write_version) meta f ≡ x
          → P (commit_installed w meta f p x (raise f.version s)).1
      with_envelope p (err e) h k = later
      with_envelope p (ok envelope) h k =
          subst P
            (sym
              (installed_state (commit_snapshot w meta f envelope (adopt p) (raise f.version s))))
            (commits p envelope h k)

      with_payload :
          (x : Result IoError (Snapshot L S))
          → checked_payload c meta f ≡ x
          → P (install_checked c w meta f x s).1
      with_payload (err e) h = q
      with_payload (ok p) h =
          with_envelope p (encode_stored c (raised f.version s.active_write_version) meta f) h refl
