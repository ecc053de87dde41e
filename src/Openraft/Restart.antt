-- ===== src/Openraft/Restart.antt =====
-- What a restart finds.
use mathlib.Core.Path.{subst}
use tsoracle.Prelude.{ℕ, ◌≡◌, refl, sym, true, Option, none, some, List, Result, ok, err, All}
use tsoracle.BTreeMap.Ord.{Ord}
use tsoracle.Openraft.Entries.{Raft}
use tsoracle.Openraft.Apply.{Frame, StateMachine}
use tsoracle.Openraft.Codec.{Codecs, is_lease_set}
use tsoracle.Openraft.Snapshot.{
  IoError, supersedes_published, same_log_id, published, default_dense_cardinality_cap,
}
use tsoracle.Openraft.Machine.{new_core, with_store}
use tsoracle.Openraft.Events.{Event, live}
use tsoracle.Openraft.Durable.{Stored, IsEvent, live-IsLife}

module _ {L M S B : Type 0} ⦃o : Ord L⦄ (r : Raft L M S) (c : Codecs L S B) where
  -- A restart on the store answers a state machine that publishes nothing older, and that has applied
  -- exactly the entries of the snapshot it publishes.
  abbrev pub Recovers : StateMachine L S B → Result IoError (StateMachine L S B) → Type 0
  Recovers s (ok t) =
      (supersedes_published (published t.core) (published s.core) ≡ true)
      × (same_log_id (published t.core) t.core.last_applied ≡ true)
  Recovers s (err e) = ⊥

  with_store-Recovers :
      (s : StateMachine L S B) (active : ℕ) (f : Option (Frame B))
      → Stored c f (published s.core)
      → Recovers s (with_store r c f active)
  unfolding with_store supersedes_published
  with_store-Recovers s active none q =
      (subst (λ n. supersedes_published none n ≡ true) (sym q) refl, refl)
  with_store-Recovers s active (some f) (p, payload, reads, reads_payload, agree, newer) =
      rw reads (rw reads_payload (newer, agree))

  -- A new state machine on an empty store.
  abbrev pub newborn : ℕ → StateMachine L S B
  newborn active = record {
    core = new_core r default_dense_cardinality_cap;
    active_write_version = active;
    store = none;
  }

  -- A state machine that starts empty, and lives through valid entries, copies, builds, installs of
  -- whatever comes in, and failing writes of the store: a restart at any point succeeds, with a snapshot
  -- that is not older than the one it had published, and with that snapshot's last entry as the last one
  -- applied.
  pub restart-live :
      (es : List (Event L M S B)) (active active' : ℕ)
      → All IsEvent es
      → Recovers (live r c es (record { past = newborn active; now = newborn active })).now (
          with_store r c
            (live r c es (record { past = newborn active; now = newborn active })).now.store
            active')
  unfolding is_lease_set
  restart-live es active active' h =
      let x = live r c es (record { past = newborn active; now = newborn active }) in
      let (_, kept) =
        live-IsLife r c es (record { past = newborn active; now = newborn active }) h
          (refl, (refl, refl)) in
      with_store-Recovers x.now active' x.now.store kept.1
