-- ===== src/Openraft/Published.antt =====
-- The published snapshot through every event: it never goes back, and the store keeps up with it.
use mathlib.Core.Path.{subst}
use tsoracle.Prelude.{◌≡◌, refl, sym, ◌∙◌, true, Option, none, some, List, [], ◌∷◌, arith}
use tsoracle.BTreeMap.Ord.{Ord}
use tsoracle.Openraft.Entries.{
  Entry, Raft, EntryPayload, blank, normal, membership, HighWaterCommand,
}
use tsoracle.Openraft.Apply.{
  Frame, SnapMeta, Core, StateMachine, apply, apply_entry, apply_payload, apply_command,
}
use tsoracle.Openraft.Cases.{format-any, leases-any}
use tsoracle.Openraft.Codec.{Codecs}
use tsoracle.Openraft.Snapshot.{
  log_id_of, SaveOutcome, supersedes_published, published, meta_of, adopt,
}
use tsoracle.Openraft.Machine.{commit_snapshot, raise}
use tsoracle.Openraft.Events.{Event, applies, copy, builds, installs, Life, on_event, live}
use tsoracle.Openraft.Commits.{commit-any, build-any, install-any}

module _ {L : Type 0} ⦃o : Ord L⦄ where
  pub supersedes_refl : (a : Option L) → supersedes_published a a ≡ true
  unfolding supersedes_published
  supersedes_refl none = refl
  supersedes_refl (some l) = ground (arith, o.reflexive l)

  pub supersedes_trans :
      (a b c : Option L)
      → supersedes_published a b ≡ true
      → supersedes_published b c ≡ true
      → supersedes_published a c ≡ true
  unfolding supersedes_published
  supersedes_trans a b none h k = refl
  supersedes_trans none none (some z) h k = cc
  supersedes_trans none (some y) (some z) h k = cc
  supersedes_trans (some x) none (some z) h k = cc
  supersedes_trans (some x) (some y) (some z) h k = ground (
    arith,
    o.transitive x y z,
    o.transitive x z y,
    o.transitive y z x,
    o.transitive z x y,
    o.flips x y,
    o.flips y z,
    o.flips x z,
    o.identifies x y,
    o.identifies y z,
    o.identifies x z,
    o.reflexive x,
  )

-- Applied entries leave the published snapshot and the stored one alone.
module _ {L M S B : Type 0} (r : Raft L M S) where
  abbrev pub SameSnapshots : StateMachine L S B → StateMachine L S B → Type 0
  SameSnapshots s t = (t.core.current_snapshot ≡ s.core.current_snapshot) × (t.store ≡ s.store)

  command-SameSnapshots :
      (l : L) (x : HighWaterCommand) (s : StateMachine L S B)
      → SameSnapshots s (apply_command r l x s).1
  command-SameSnapshots l (HighWaterCommand.advance p) s = (refl, refl)
  command-SameSnapshots l (HighWaterCommand.set_format_version target gated) s =
      format-any r (SameSnapshots s) target gated s (refl, refl) (refl, refl)
  command-SameSnapshots l (HighWaterCommand.advance_dense e) s = (refl, refl)
  command-SameSnapshots l (HighWaterCommand.advance_dense_batch es) s = (refl, refl)
  command-SameSnapshots l (HighWaterCommand.set_leases term ls) s =
      leases-any r (SameSnapshots s) l term ls s (refl, refl) (refl, refl)

  payload-SameSnapshots :
      (l : L) (p : EntryPayload M) (s : StateMachine L S B)
      → SameSnapshots s (apply_payload r l p s).1
  payload-SameSnapshots l blank s = (refl, refl)
  payload-SameSnapshots l (normal x) s = command-SameSnapshots l x s
  payload-SameSnapshots l (membership m) s = (refl, refl)

  pub apply-SameSnapshots :
      (es : List (Entry L M)) (s : StateMachine L S B) → SameSnapshots s (apply r es s).1
  unfolding apply apply_entry
  apply-SameSnapshots [] s = (refl, refl)
  apply-SameSnapshots (e ∷ es) s =
      let one = payload-SameSnapshots e.log_id e.payload s in
      let rest = apply-SameSnapshots es (apply_entry r e s).1 in (rest.0 ∙ one.0, rest.1 ∙ one.1)

-- The second state publishes nothing older than the first.
abbrev pub Newer : {L S B : Type 0} ⦃o : Ord L⦄ → StateMachine L S B → StateMachine L S B → Type 0
Newer s t = supersedes_published (published t.core) (published s.core) ≡ true

module _ {L M S B : Type 0} ⦃o : Ord L⦄ (r : Raft L M S) (c : Codecs L S B) where
  commit-Newer :
      (w : SaveOutcome) (meta : SnapMeta L S) (d envelope : Frame B)
      (on_adopt : Core L S B → Core L S B) (s : StateMachine L S B)
      → Newer s (commit_snapshot w meta d envelope on_adopt s).1
  commit-Newer w meta d envelope on_adopt s =
      commit-any (Newer s) w meta d envelope on_adopt s (supersedes_refl (published s.core))
        (λ newer. (newer, supersedes_refl (published s.core)))

  -- One event, on the state machine as it is now.
  event-Newer : (e : Event L M S B) (x : Life L S B) → Newer x.now (on_event r c e x).now
  event-Newer (applies es) x =
      subst (λ q. supersedes_published (log_id_of q) (published x.now.core) ≡ true)
        (sym (apply-SameSnapshots r es x.now).0) (supersedes_refl (published x.now.core))
  event-Newer copy x = supersedes_refl (published x.now.core)
  event-Newer (builds w) x =
      build-any c (Newer x.now) w x.past x.now (supersedes_refl (published x.now.core))
        (λ f envelope h k. commit-Newer w (meta_of x.past.core) f envelope (λ core. core) x.now)
  event-Newer (installs w meta f) x =
      install-any c (Newer x.now) w meta f x.now (supersedes_refl (published x.now.core))
        (supersedes_refl (published x.now.core))
        (λ p envelope h k. commit-Newer w meta f envelope (adopt p) (raise f.version x.now))

  -- Through entries, copies, builds that commit an old copy, installs, and writes of the store that
  -- fail, in any order: the snapshot that is published after is not older than the one before.
  pub live-Newer : (es : List (Event L M S B)) (x : Life L S B) → Newer x.now (live r c es x).now
  unfolding live
  live-Newer [] x = supersedes_refl (published x.now.core)
  live-Newer (e ∷ es) x =
      supersedes_trans (published (live r c es (on_event r c e x)).now.core)
        (published (on_event r c e x).now.core) (published x.now.core)
        (live-Newer es (on_event r c e x)) (event-Newer e x)
