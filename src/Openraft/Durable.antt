-- ===== src/Openraft/Durable.antt =====
-- The store against the snapshot that is published.
use mathlib.Core.Path.{subst}
use tsoracle.Prelude.{ℕ, ◌≡◌, sym, true, Option, none, some, List, [], ◌∷◌, ok, All}
use tsoracle.BTreeMap.Ord.{Ord}
use tsoracle.Openraft.Entries.{Raft}
use tsoracle.Openraft.Apply.{Frame, SnapMeta, Core, StateMachine, apply}
use tsoracle.Openraft.Codec.{Codecs, Snapshot, PersistedSnapshot, is_lease_set}
use tsoracle.Openraft.Snapshot.{
  SaveOutcome, supersedes_published, same_log_id, published, log_id_of, decode_payload,
  decode_stored, encode_stored, meta_of, snapshot_of, raised, adopt,
}
use tsoracle.Openraft.Machine.{commit_snapshot, raise, build_snapshot, install_snapshot}
use tsoracle.Openraft.RoundTrip.{as_stored, decode-encode_payload, decode-encode_stored}
use tsoracle.Openraft.Install.{as_stored-last_applied}
use tsoracle.Openraft.Invariant.{IsEntry}
use tsoracle.Openraft.Events.{Event, applies, copy, builds, installs, Life, on_event, live}
use tsoracle.Openraft.Commits.{commit-any, build-any, install-any}
use tsoracle.Openraft.Published.{supersedes_refl, apply-SameSnapshots}
use tsoracle.Openraft.LeaseSets.{apply-HasLeases, payload-Checked}

module _ {L S B : Type 0} ⦃o : Ord L⦄ (c : Codecs L S B) where
  -- The stored bytes are read back, to a snapshot that is not older than the published one.
  abbrev pub Loads : Frame B → Option L → Type 0
  Loads f newest =
      (p : PersistedSnapshot L S B) × (payload : Snapshot L S) × (decode_stored c f ≡ ok p)
      × (decode_payload c p.snapshot_data ≡ ok payload)
      × (same_log_id p.meta.last_log_id payload.last_applied ≡ true)
      × (supersedes_published p.meta.last_log_id newest ≡ true)

  abbrev pub Stored : Option (Frame B) → Option L → Type 0
  Stored none newest = newest ≡ none
  Stored (some f) newest = Loads f newest

  abbrev pub Kept : StateMachine L S B → Type 0
  Kept s = (is_lease_set s.core.leases ≡ true) × Stored s.store (published s.core)

  commit-Kept :
      (w : SaveOutcome) (meta : SnapMeta L S) (d envelope : Frame B) (v : ℕ)
      (payload : Snapshot L S) (on_adopt : Core L S B → Core L S B) (s : StateMachine L S B)
      → decode_payload c d ≡ ok payload
      → same_log_id meta.last_log_id payload.last_applied ≡ true
      → encode_stored c v meta d ≡ ok envelope
      → is_lease_set (on_adopt s.core).leases ≡ true
      → Kept s
      → Kept (commit_snapshot w meta d envelope on_adopt s).1
  commit-Kept w meta d envelope v payload on_adopt s h agree sent sorted k =
      let p : PersistedSnapshot L S B = record { meta = meta; snapshot_data = d } in
      let reads = (decode-encode_stored c v meta d envelope sent).0 in
      commit-any Kept w meta d envelope on_adopt s k (λ newer. (
        (sorted, (p, payload, reads, h, agree, supersedes_refl meta.last_log_id)),
        (k.0, (p, payload, reads, h, agree, newer)),
      ))

  build-Kept :
      (w : SaveOutcome) (past s : StateMachine L S B)
      → is_lease_set past.core.leases ≡ true
      → Kept s
      → Kept (build_snapshot c w past s).1
  build-Kept w past s sorted k = build-any c Kept w past s k (λ f envelope sent kept.
      commit-Kept w (meta_of past.core) f envelope s.active_write_version
        (as_stored c past.active_write_version (snapshot_of past.core)) (λ core. core) s
        (decode-encode_payload c past.active_write_version (snapshot_of past.core) f sorted sent).0
        (as_stored-last_applied c past.active_write_version past) kept k.0 k)

  install-Kept :
      (w : SaveOutcome) (meta : SnapMeta L S) (f : Frame B) (s : StateMachine L S B)
      → Kept s
      → Kept (install_snapshot c w meta f s).1
  install-Kept w meta f s k = install-any c Kept w meta f s k k (λ p envelope h sent.
      let (reads, (sorted, agree)) = payload-Checked c meta f p h in
      commit-Kept w meta f envelope (raised f.version s.active_write_version) p (adopt p)
        (raise f.version s) reads agree sent sorted k)

abbrev pub IsEvent : {L M S B : Type 0} → Event L M S B → Type 0
IsEvent (applies es) = All IsEntry es
IsEvent _ = Unit

module _ {L M S B : Type 0} ⦃o : Ord L⦄ (r : Raft L M S) (c : Codecs L S B) where
  abbrev pub IsLife : Life L S B → Type 0
  IsLife x = (is_lease_set x.past.core.leases ≡ true) × Kept c x.now

  event-IsLife :
      (e : Event L M S B) (x : Life L S B) → IsEvent e → IsLife x → IsLife (on_event r c e x)
  event-IsLife (applies es) x h q =
      let same = apply-SameSnapshots r es x.now in
      (
        q.0,
        (
          apply-HasLeases r es x.now h q.1.0,
          subst (λ f. Stored c f (published (apply r es x.now).1.core)) (sym same.1)
              (subst (λ p. Stored c x.now.store (log_id_of p)) (sym same.0) q.1.1),
        ),
      )
  event-IsLife copy x h q = (q.1.0, q.1)
  event-IsLife (builds w) x h q = (q.0, build-Kept c w x.past x.now q.0 q.1)
  event-IsLife (installs w meta f) x h q = (q.0, install-Kept c w meta f x.now q.1)

  pub live-IsLife :
      (es : List (Event L M S B)) (x : Life L S B)
      → All IsEvent es
      → IsLife x
      → IsLife (live r c es x)
  unfolding live
  live-IsLife [] x h q = q
  live-IsLife (e ∷ es) x h q = live-IsLife es (on_event r c e x) h.1 (event-IsLife e x h.0 q)
