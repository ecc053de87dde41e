-- ===== src/Server/Durable.antt =====
-- A lease change: what was persisted is what the table then holds.
use tsoracle.Prelude.{
  ℕ, ◌≡◌, refl, ◌∙◌, ap, true, false, Option, none, some, List, ok, inl, inr, Option-cases,
}
use tsoracle.BTreeMap.{nat_ord, Sorted}
use tsoracle.Epoch.{Epoch}
use tsoracle.Lease.{
  LeaseRecord, LeaseTable, is_expired, live_set, projected_live_set, commit_acquire,
  prepare_release,
}
use tsoracle.Lease.Table.{renew-eq-acquire, live_set-acquire}
use tsoracle.Server.Core.{
  ServingCore, current_epoch, is_epoch, lease_table_at, lease_projected_live_set, lease_commit,
  commit_upsert,
}
use tsoracle.Server.Action.{Server, Runtime}
use tsoracle.Server.Leases.{
  LeaseMutation, persist_lease_set, commit_mutation, persist_lease_mutation,
}

-- Acquired or renewed, the record goes into the table the same way.
upsert-eq-acquire :
    (t : LeaseTable) (rec : LeaseRecord) (sup : Option ℕ) (now : ℕ)
    → commit_upsert (some rec) sup now t ≡ commit_acquire t rec sup now
upsert-eq-acquire t rec none now = elim (Option-cases (prepare_release t rec.lease_id)) [
  | inl fresh ↦ rw (fresh, commit_upsert) refl
  | inr (old, found) ↦ rw (found, commit_upsert) (renew-eq-acquire t rec now)
]
upsert-eq-acquire t rec (some id) now = refl

abbrev pub upserting : LeaseRecord → Option ℕ → LeaseMutation
upserting rec sup = record { upsert = some rec; supersede = sup; remove = none }

changed : ServingCore → LeaseRecord → Option ℕ → ℕ → ServingCore
changed c rec sup now = record c { lease_table = commit_acquire c.lease_table rec sup now }

commit_lem :
    (rec : LeaseRecord) (sup : Option ℕ) (e : Epoch) (now : ℕ) (c : ServingCore)
    → is_epoch e (current_epoch c) ≡ true
    → lease_commit (some rec) sup none e now c ≡ ok (changed c rec sup now)
unfolding lease_commit lease_table_at changed
commit_lem rec sup e now c led = rw (led, upsert-eq-acquire c.lease_table rec sup now) refl

projected_lem :
    (rec : LeaseRecord) (sup : Option ℕ) (e : Epoch) (now : ℕ) (c : ServingCore)
    → is_epoch e (current_epoch c) ≡ true
    → lease_projected_live_set c (some rec) sup none e now
      ≡ ok (projected_live_set c.lease_table (some rec) sup none now)
unfolding lease_projected_live_set lease_table_at
projected_lem rec sup e now c led = rw led refl

module _ {D : Type 0} (run : Runtime D) where
  set_lem :
      (rs : List LeaseRecord) (e : Epoch) (s s1 : Server D)
      → run.consensus.persist_leases rs e s ≡ (ok tt, s1)
      → persist_lease_set run rs e s ≡ (ok tt, s1)
  unfolding persist_lease_set
  set_lem rs e s s1 stored = rw stored refl

  mutation_lem :
      (rec : LeaseRecord) (sup : Option ℕ) (e : Epoch) (now : ℕ) (s : Server D)
      → is_epoch e (current_epoch s.core) ≡ true
      → commit_mutation (upserting rec sup) e now s
        ≡ (ok tt, record s { core = changed s.core rec sup now })
  unfolding commit_mutation
  mutation_lem rec sup e now s led = rw (commit_lem rec sup e now s.core led) refl

  -- If the table is in order, the record has not expired, this is still the leader of the epoch,
  -- and the backend stores the projected set while no other task changes the core, then the
  -- change succeeds, the table's live leases are exactly the stored ones, and the allocator is
  -- left alone.
  pub upsert-durable :
      (rec : LeaseRecord) (sup : Option ℕ) (e : Epoch) (now : ℕ) (s s1 : Server D)
      → Sorted s.core.lease_table
      → is_epoch e (current_epoch s.core) ≡ true
      → is_expired now rec ≡ false
      → run.consensus.persist_leases
          (projected_live_set s.core.lease_table (some rec) sup none now)
          e
          s
        ≡ (ok tt, s1)
      → s1.core ≡ s.core
      → let r = persist_lease_mutation run (upserting rec sup) e now s in
        (r.0 ≡ ok tt)
        × (live_set r.1.core.lease_table now
            ≡ projected_live_set s.core.lease_table (some rec) sup none now)
        × (r.1.core.allocator ≡ s.core.allocator)
  unfolding persist_lease_mutation changed
  upsert-durable rec sup e now s s1 sorted led live stored still =
      rw
        (
          projected_lem rec sup e now s.core led,
          set_lem (projected_live_set s.core.lease_table (some rec) sup none now) e s s1 stored,
          mutation_lem rec sup e now s1 (ap (λ c. is_epoch e (current_epoch c)) still ∙ led),
        )
        (
          refl,
          ap (λ c. live_set (commit_acquire c.lease_table rec sup now) now) still
              ∙ live_set-acquire s.core.lease_table rec sup now sorted live,
          ap (λ c. c.allocator) still,
        )
