-- ===== src/Lease/Table.antt =====
-- The set that is persisted is the one that the committed table then holds.
use tsoracle.Prelude.{ℕ, ◌≡◌, refl, ap, ◌∙◌, false, Option, none, some, arith}
use tsoracle.BTreeMap.{
  nat_ord, get, Sorted, ext, values, get-insert, get-update, get-retain, get-remove, insert-Sorted,
  update-Sorted, retain-Sorted, remove-Sorted, insert, update, retain, remove,
}
use tsoracle.Lease.{
  LeaseRecord, LeaseTable, is_expired, is_live, mark_superseded, commit_acquire, commit_renew,
  commit_release, live_set, projection, projected_live_set,
}

retain_twice :
    (now : ℕ) (t : LeaseTable)
    → Sorted t
    → retain (is_live now) (retain (is_live now) t) ≡ retain (is_live now) t
retain_twice now t s =
    ext _ _ (retain-Sorted (is_live now) _ (retain-Sorted (is_live now) t s))
      (retain-Sorted (is_live now) t s)
      (λ i. ground (
        arith,
        get-retain (is_live now) i (retain (is_live now) t) (retain-Sorted (is_live now) t s),
        get-retain (is_live now) i t s,
      ))

upsert_same :
    (t u : LeaseTable) (rec : LeaseRecord) (now : ℕ)
    → Sorted t
    → Sorted u
    → is_expired now rec ≡ false
    → ((i : ℕ) → get i u ≡ get i (retain (is_live now) t))
    → retain (is_live now) (insert rec.lease_id rec t) ≡ insert rec.lease_id rec u
upsert_same t u rec now s s' live h =
    ext _ _ (retain-Sorted (is_live now) _ (insert-Sorted rec.lease_id rec t s))
      (insert-Sorted rec.lease_id rec u s')
      (λ i. ground (
        arith,
        get-retain (is_live now) i (insert rec.lease_id rec t) (insert-Sorted rec.lease_id rec t s),
        get-retain (is_live now) i t s,
        get-insert i rec.lease_id rec t,
        get-insert i rec.lease_id rec u,
        h i,
      ))

-- Marking a lease superseded and dropping the expired ones commute.
update-retain :
    (t : LeaseTable) (now id i : ℕ)
    → Sorted t
    → get i (update id mark_superseded (retain (is_live now) t))
      ≡ get i (retain (is_live now) (update id mark_superseded t))
update-retain t now id i s = ground (
  arith,
  get-update i id mark_superseded (retain (is_live now) t),
  get-retain (is_live now) i t s,
  get-retain (is_live now) i (update id mark_superseded t) (update-Sorted id mark_superseded t s),
  get-update i id mark_superseded t,
)

retain-remove :
    (t : LeaseTable) (now id : ℕ)
    → Sorted t
    → retain (is_live now) (remove id t) ≡ remove id (retain (is_live now) t)
retain-remove t now id s =
    ext _ _ (retain-Sorted (is_live now) _ (remove-Sorted id t s))
      (remove-Sorted id _ (retain-Sorted (is_live now) t s))
      (λ i. ground (
        arith,
        get-retain (is_live now) i (remove id t) (remove-Sorted id t s),
        get-remove i id t s,
        get-remove i id (retain (is_live now) t) (retain-Sorted (is_live now) t s),
        get-retain (is_live now) i t s,
      ))

acquire_projection :
    (t : LeaseTable) (rec : LeaseRecord) (sup : Option ℕ) (now : ℕ)
    → Sorted t
    → is_expired now rec ≡ false
    → commit_acquire t rec sup now ≡ projection t (some rec) sup none now
unfolding commit_acquire projection
acquire_projection t rec none now s live =
    upsert_same t (retain (is_live now) t) rec now s (retain-Sorted (is_live now) t s) live
      (λ i. refl)
acquire_projection t rec (some id) now s live =
    upsert_same (update id mark_superseded t) (update id mark_superseded (retain (is_live now) t))
      rec now (update-Sorted id mark_superseded t s)
      (update-Sorted id mark_superseded _ (retain-Sorted (is_live now) t s)) live
      (λ i. update-retain t now id i s)

pub renew-eq-acquire :
    (t : LeaseTable) (rec : LeaseRecord) (now : ℕ)
    → commit_renew t rec now ≡ commit_acquire t rec none now
unfolding commit_renew commit_acquire
renew-eq-acquire t rec now = refl

live_projection :
    (t : LeaseTable) (rec : LeaseRecord) (sup : Option ℕ) (now : ℕ)
    → Sorted t
    → retain (is_live now) (commit_acquire t rec sup now) ≡ commit_acquire t rec sup now
unfolding commit_acquire
live_projection t rec none now s = retain_twice now _ (insert-Sorted rec.lease_id rec t s)
live_projection t rec (some id) now s =
    retain_twice now _ (insert-Sorted rec.lease_id rec _ (update-Sorted id mark_superseded t s))

-- For a table in order and a record that has not expired: the set that is projected for its grant
-- is the set of unexpired records that the table holds once the grant is committed.
pub live_set-acquire :
    (t : LeaseTable) (rec : LeaseRecord) (sup : Option ℕ) (now : ℕ)
    → Sorted t
    → is_expired now rec ≡ false
    → live_set (commit_acquire t rec sup now) now ≡ projected_live_set t (some rec) sup none now
unfolding live_set projected_live_set
live_set-acquire t rec sup now s live =
    ap values (live_projection t rec sup now s ∙ acquire_projection t rec sup now s live)

-- For a table in order: the set that is projected for a release is the set of unexpired records
-- that the table holds once the release is committed.
pub live_set-release :
    (t : LeaseTable) (id now : ℕ)
    → Sorted t
    → live_set (commit_release t id now) now ≡ projected_live_set t none none (some id) now
unfolding live_set projected_live_set commit_release
live_set-release t id now s =
    ap values (retain_twice now _ (remove-Sorted id t s) ∙ retain-remove t now id s)
