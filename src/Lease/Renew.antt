-- ===== src/Lease/Renew.antt =====
-- Renewing, releasing and the passing of time.
use tsoracle.Prelude.{
  ℕ, ◌≤◌, ◌<◌, if◌then◌else◌, ◌≡◌, refl, sym, ◌∙◌, inl, inr, Bool, true, false, none, some, [], ◌∷◌,
  Result, ok, err, fail_if, ◌>>◌, arith, Option-cases, Bool-cases,
}
use mathlib.Core.Path.{subst}
use tsoracle.BTreeMap.{
  nat_ord, same, same_eq, same_refl, get, Sorted, get-insert, get-retain, get-remove, insert-Sorted,
  retain-Sorted, remove-Sorted, insert, remove,
}
use tsoracle.Lease.{
  LeaseRecord, LeaseTable, LeaseError, unknown_lease, lease_expired, lease_superseded, is_expired,
  is_live, prepare_renew, superseding_epoch, commit_renew, commit_release,
}
use tsoracle.Lease.Acquire.{Active, IsTable}

superseding_epoch-le : (r : LeaseRecord) (t : LeaseTable) → r.holder_epoch ≤ superseding_epoch r t
unfolding superseding_epoch
superseding_epoch-le r [] = omega arith
superseding_epoch-le r ((i, s) ∷ t) = ground (arith, superseding_epoch-le r t)

-- What a renewal may answer, and of which record.
abbrev pub Renewable : LeaseTable → ℕ → ℕ → Result LeaseError LeaseRecord → Type 0
Renewable t id now (ok r) =
    (get id t ≡ some r) × (is_expired now r ≡ false) × (r.superseded ≡ false)
Renewable t id now (err (unknown_lease i)) = (i ≡ id) × (get id t ≡ none)
Renewable t id now (err (lease_expired i at)) =
    (i ≡ id) × ((r : LeaseRecord) × (get id t ≡ some r) × (r.expires_at_ms ≡ at) × (at ≤ now))
Renewable t id now (err (lease_superseded i by)) =
    (i ≡ id)
    × ((r : LeaseRecord) × (get id t ≡ some r)
        × (now < r.expires_at_ms)
        × (r.superseded ≡ true)
        × (r.holder_epoch ≤ by))
Renewable t id now (err _) = ⊥

still_live :
    (t : LeaseTable) (id now : ℕ) (r : LeaseRecord) (b : Bool)
    → get id t ≡ some r
    → is_expired now r ≡ false
    → r.superseded ≡ b
    → Renewable t id now (fail_if b (lease_superseded id (superseding_epoch r t)) >> ok r)
still_live t id now r false found live q = (found, live, q)
still_live t id now r true found live q =
    (refl, (r, found, ground arith, q, superseding_epoch-le r t))

-- A renewal is accepted exactly for a stored lease that is neither expired nor superseded; an
-- unknown, an expired or a superseded one is refused as such, expiry first, and the epoch reported
-- for a superseded one is not below its own.
pub prepare_renew_lem : (t : LeaseTable) (id now : ℕ) → Renewable t id now (prepare_renew t id now)
unfolding prepare_renew
prepare_renew_lem t id now = elim (Option-cases (get id t)) [
  | inl gone ↦ rw gone (refl, gone)
  | inr (r, found) ↦ elim (Bool-cases (is_expired now r)) [
    | inl over ↦ rw (found, over) (refl, (r, found, refl, ground arith))
    | inr live ↦ rw (found, live) (still_live t id now r r.superseded found live refl)
  ]
]

-- What time and the other calls do to the lease `r` that is stored under `i` afterwards: an active
-- one was active before, under the same key and of the same holder group.
abbrev Keeps : LeaseTable → LeaseTable → ℕ → ℕ → Type 0
Keeps t t' now now' =
    (i : ℕ) (r : LeaseRecord)
    → Active t' now' i r
    → (s : LeaseRecord) × Active t now i s × (s.holder ≡ r.holder)

exclusive-Keeps :
    (t t' : LeaseTable) (now now' : ℕ)
    → IsTable t now
    → Keeps t t' now now'
    → (i j : ℕ) (r s : LeaseRecord) → Active t' now' i r
    → Active t' now' j s
    → r.holder ≡ s.holder
    → i ≡ j
exclusive-Keeps t t' now now' v keep i j r s a b m =
    let (r', a', p) = keep i r a in
    let (s', b', q) = keep j s b in v.exclusive i j r' s' a' b' (p ∙ m ∙ sym q)

-- As time passes the table stays one: leases only stop being active.
pub later-IsTable : (t : LeaseTable) (now now' : ℕ) → now ≤ now' → IsTable t now → IsTable t now'
later-IsTable t now now' h v = record {
  sorted = v.sorted;
  keyed = v.keyed;
  exclusive = exclusive-Keeps t t now now' v (λ i r a. (r, (a.0, ground (arith, a.1)), refl));
}

renew_get :
    (t : LeaseTable) (rec : LeaseRecord) (now i : ℕ)
    → Sorted t
    → get i (commit_renew t rec now) ≡ (elim (get i (insert rec.lease_id rec t)) [
      | none ↦ none
      | some v ↦ if is_live now v then some v else none
    ])
unfolding commit_renew
renew_get t rec now i s =
    get-retain (is_live now) i (insert rec.lease_id rec t) (insert-Sorted rec.lease_id rec t s)

-- A renewal prepared on a table that is in order, keyed and exclusive (at most one active lease
-- per holder group), committed at the same time with any bound and expiry, leaves it so.
pub renew-IsTable :
    (t : LeaseTable) (id now bound expires : ℕ) (r : LeaseRecord)
    → IsTable t now
    → prepare_renew t id now ≡ ok r
    → IsTable
        (commit_renew t (record r { ts_upper_bound = bound; expires_at_ms = expires }) now)
        now
renew-IsTable t id now bound expires r v p = record {
  sorted = sorted_after;
  keyed = λ i s e.
      ground (arith, renew_get t rec now i v.sorted, get-insert i r.lease_id rec t, v.keyed i s);
  exclusive = exclusive-Keeps t (commit_renew t rec now) now now v λ i s a.
      elim (Bool-cases (same i r.lease_id)) [
        | inl hit ↦ (
          r,
          (
            rw (same_eq i r.lease_id hit ∙ v.keyed id r found.0) found.0,
            ground (arith, found.1, found.2),
          ),
          ground (arith, renew_get t rec now i v.sorted, get-insert i r.lease_id rec t),
        )
        | inr miss ↦
            (s, ground (arith, renew_get t rec now i v.sorted, get-insert i r.lease_id rec t), refl)
      ];
}
  where
    rec : LeaseRecord
    rec = record r { ts_upper_bound = bound; expires_at_ms = expires }

    found : Renewable t id now (ok r)
    found = subst (Renewable t id now) p (prepare_renew_lem t id now)

    sorted_after : Sorted (commit_renew t rec now)
    sorted_after =
        unfold commit_renew in
        retain-Sorted (is_live now) _ (insert-Sorted r.lease_id rec t v.sorted)

release_get :
    (t : LeaseTable) (id now i : ℕ)
    → Sorted t
    → get i (commit_release t id now) ≡ (elim (get i (remove id t)) [
      | none ↦ none
      | some v ↦ if is_live now v then some v else none
    ])
unfolding commit_release
release_get t id now i s = get-retain (is_live now) i (remove id t) (remove-Sorted id t s)

release-Sorted : (t : LeaseTable) (id now : ℕ) → Sorted t → Sorted (commit_release t id now)
unfolding commit_release
release-Sorted t id now s = retain-Sorted (is_live now) (remove id t) (remove-Sorted id t s)

-- A release from a table that is in order, keyed and exclusive leaves it so, and the lease is
-- gone.
pub release-IsTable :
    (t : LeaseTable) (id now : ℕ)
    → IsTable t now
    → IsTable (commit_release t id now) now × (get id (commit_release t id now) ≡ none)
release-IsTable t id now v = (
  record {
    sorted = release-Sorted t id now v.sorted;
    keyed = λ i s e.
        ground (arith, release_get t id now i v.sorted, get-remove i id t v.sorted, v.keyed i s);
    exclusive = exclusive-Keeps t (commit_release t id now) now now v λ i s a.
        (s, ground (arith, release_get t id now i v.sorted, get-remove i id t v.sorted), refl);
  },
  ground (arith, release_get t id now id v.sorted, get-remove id id t v.sorted, same_refl id),
)
