-- ===== src/Lease/Acquire.antt =====
-- Acquiring: a holder group never has two active leases.
use tsoracle.Prelude.{
  ℕ, ◌<◌, ◌≡◌, ◌≢◌, refl, sym, ◌∙◌, ap, ◌⊎◌, inl, inr, true, Option, none, some, List, [], ◌∷◌,
  Result, ok, err, ltb, ◌==◌, arith, Bool-cases, Option-cases,
}
use mathlib.Core.Path.{subst}
use tsoracle.BTreeMap.{
  same, bytes_ord, nat_ord, get, Sorted, same_refl, same_eq, Above-Sorted, get_tail, get-insert,
  get-update, get-retain, insert-Sorted, update-Sorted, retain-Sorted, insert, update,
}
use tsoracle.Lease.{
  LeaseRecord, LeaseTable, LeaseError, holder_epoch_stale, AcquireDecision, idempotent, grant,
  is_live, is_active, active_for, decide, prepare_acquire, commit_acquire, mark_superseded,
}

-- `r` is stored under `i`, and is neither superseded nor expired.
abbrev pub Active : LeaseTable → ℕ → ℕ → LeaseRecord → Type 0
Active t now i r = (get i t ≡ some r) × (is_active now r ≡ true)

pub record IsTable (t : LeaseTable) (now : ℕ) : Type 0 where
  pub sorted : Sorted t
  pub keyed : (i : ℕ) (r : LeaseRecord) → get i t ≡ some r → r.lease_id ≡ i
  pub exclusive :
      (i j : ℕ) (r s : LeaseRecord)
      → Active t now i r
      → Active t now j s
      → r.holder ≡ s.holder
      → i ≡ j

-- What the search finds is active and of the holder; what it does not find is not there.
active_for-some :
    (h : List ℕ) (now : ℕ) (t : LeaseTable) (r : LeaseRecord)
    → Sorted t
    → active_for h now t ≡ some r
    → (i : ℕ) × Active t now i r × (r.holder ≡ h)
unfolding active_for get
active_for-some h now [] r s e = cc
active_for-some h now ((j, w) ∷ t) r s e = elim (Bool-cases (is_active now w)) [
  | inl on ↦ elim (Bool-cases (same w.holder h)) [
    | inl mine ↦ (j, ground (arith, same_refl j), ground (arith, same_eq w.holder h))
    | inr other ↦
        let (i, (found, on'), k) = active_for-some h now t r (Above-Sorted j t s) (ground arith) in
        (i, (get_tail i j w t s found, on'), k)
  ]
  | inr off ↦
      let (i, (found, on'), k) = active_for-some h now t r (Above-Sorted j t s) (ground arith) in
      (i, (get_tail i j w t s found, on'), k)
]

active_for-none :
    (h : List ℕ) (now i : ℕ) (t : LeaseTable) (r : LeaseRecord)
    → active_for h now t ≡ none
    → Active t now i r
    → r.holder ≢ h
unfolding active_for get
active_for-none h now i [] r e a = λ _. cc
active_for-none h now i ((j, w) ∷ t) r e a =
    λ k. ground (arith, active_for-none h now i t r, same_refl h)

-- The active lease `r` of the holder group `h`.
abbrev pub Current : LeaseTable → List ℕ → ℕ → LeaseRecord → Type 0
Current t h now r = (i : ℕ) × Active t now i r × (r.holder ≡ h)

abbrev pub Decides : LeaseTable → List ℕ → ℕ → ℕ → Result LeaseError AcquireDecision → Type 0
Decides t h e now (ok (grant none)) = (i : ℕ) (r : LeaseRecord) → Active t now i r → r.holder ≢ h
Decides t h e now (ok (grant (some id))) =
    (r : LeaseRecord) × Current t h now r × (r.lease_id ≡ id) × (r.holder_epoch < e)
Decides t h e now (ok (idempotent r)) = Current t h now r × (r.holder_epoch ≡ e)
Decides t h e now (err (holder_epoch_stale q k)) =
    (r : LeaseRecord) × Current t h now r × (q ≡ e) × (r.holder_epoch ≡ k) × (e < k)
Decides t h e now (err _) = ⊥

decide-Decides :
    (t : LeaseTable) (h : List ℕ) (e now : ℕ) (r : LeaseRecord)
    → Current t h now r
    → Decides t h e now (decide e (some r))
unfolding decide
decide-Decides t h e now r c = elim (Bool-cases (r.holder_epoch == e)) [
  | inl level ↦ rw level (c, ground arith)
  | inr apart ↦ elim (Bool-cases (ltb r.holder_epoch e)) [
    | inl below ↦ rw (apart, below) (r, c, refl, ground arith)
    | inr above ↦ rw (apart, above) (r, c, refl, refl, ground arith)
  ]
]

-- On a table in order: with no active lease of the holder group a fresh one is granted; an active
-- one of the same epoch is returned, one of a lower epoch is superseded, and one of a higher
-- epoch refuses the request.
pub prepare_acquire_lem :
    (t : LeaseTable) (h : List ℕ) (e now : ℕ)
    → Sorted t
    → Decides t h e now (prepare_acquire t h e now)
unfolding prepare_acquire
prepare_acquire_lem t h e now s = elim (Option-cases (active_for h now t)) [
  | inl absent ↦ rw (absent, decide) (λ i r. active_for-none h now i t r absent)
  | inr (r, found) ↦ rw found (decide-Decides t h e now r (active_for-some h now t r s found))
]

-- What an active lease of the new table was: the record just granted, or a lease of the old table
-- that was not superseded.
abbrev Origin : LeaseTable → ℕ → LeaseRecord → Option ℕ → ℕ → LeaseRecord → Type 0
Origin t now rec sup i r = ((i ≡ rec.lease_id) × (r ≡ rec)) ⊎ (Active t now i r × (sup ≢ some i))

origin :
    (t : LeaseTable) (now : ℕ) (rec : LeaseRecord) (sup : Option ℕ) (i : ℕ) (r : LeaseRecord)
    → Sorted t
    → Active (commit_acquire t rec sup now) now i r
    → Origin t now rec sup i r
unfolding commit_acquire
origin t now rec none i r s a = ground (
  arith,
  get-retain (is_live now) i (insert rec.lease_id rec t) (insert-Sorted rec.lease_id rec t s),
  get-insert i rec.lease_id rec t,
)
origin t now rec (some id) i r s a =
    let t' = update id mark_superseded t in
    ground (
      arith,
      get-retain (is_live now) i (insert rec.lease_id rec t')
          (insert-Sorted rec.lease_id rec t' (update-Sorted id mark_superseded t s)),
      get-insert i rec.lease_id rec t',
      get-update i id mark_superseded t,
    )

-- No other lease of the holder group stays active beside the new one.
alone :
    (t : LeaseTable) (h : List ℕ) (e now i : ℕ) (sup : Option ℕ) (r : LeaseRecord)
    → IsTable t now
    → Decides t h e now (ok (grant sup))
    → Active t now i r
    → r.holder ≡ h
    → sup ≢ some i
    → ⊥
alone t h e now i none r v d a k free = d i r a k
alone t h e now i (some id) r v (c, (j, b, m), named, below) a k free =
    let same_place : j ≡ i = v.exclusive j i c r b a (m ∙ sym k) in
    free (cc (same_place, named, v.keyed j c b.0))

acquire_key :
    (t : LeaseTable) (now : ℕ) (rec : LeaseRecord) (sup : Option ℕ) (i : ℕ) (r : LeaseRecord)
    → IsTable t now
    → get i (commit_acquire t rec sup now) ≡ some r
    → r.lease_id ≡ i
unfolding commit_acquire
acquire_key t now rec none i r v e = ground (
  arith,
  get-retain (is_live now) i (insert rec.lease_id rec t)
      (insert-Sorted rec.lease_id rec t v.sorted),
  get-insert i rec.lease_id rec t,
  v.keyed i r,
)
acquire_key t now rec (some id) i r v e = elim (Option-cases (get i t)) [
  | inl gone ↦ ground (
    arith,
    get-retain (is_live now) i (insert rec.lease_id rec (update id mark_superseded t))
        (insert-Sorted rec.lease_id rec _ (update-Sorted id mark_superseded t v.sorted)),
    get-insert i rec.lease_id rec (update id mark_superseded t),
    get-update i id mark_superseded t,
  )
  | inr (s, there) ↦ ground (
    arith,
    get-retain (is_live now) i (insert rec.lease_id rec (update id mark_superseded t))
        (insert-Sorted rec.lease_id rec _ (update-Sorted id mark_superseded t v.sorted)),
    get-insert i rec.lease_id rec (update id mark_superseded t),
    get-update i id mark_superseded t,
    v.keyed i s there,
  )
]

pub acquire-Sorted :
    (t : LeaseTable) (rec : LeaseRecord) (sup : Option ℕ) (now : ℕ)
    → Sorted t
    → Sorted (commit_acquire t rec sup now)
unfolding commit_acquire
acquire-Sorted t rec none now s =
    retain-Sorted (is_live now) (insert rec.lease_id rec t) (insert-Sorted rec.lease_id rec t s)
acquire-Sorted t rec (some id) now s =
    retain-Sorted (is_live now) (insert rec.lease_id rec (update id mark_superseded t))
      (insert-Sorted rec.lease_id rec _ (update-Sorted id mark_superseded t s))

-- Let a table be in order, keyed by the lease ids and hold at most one lease per holder group
-- that is neither superseded nor expired. A grant that was prepared on it for a holder, committed
-- with a record of that holder at the same time, leaves it so.
pub acquire-IsTable :
    (t : LeaseTable) (h : List ℕ) (e now : ℕ) (sup : Option ℕ) (rec : LeaseRecord)
    → IsTable t now
    → prepare_acquire t h e now ≡ ok (grant sup)
    → rec.holder ≡ h
    → IsTable (commit_acquire t rec sup now) now
acquire-IsTable t h e now sup rec v p k = record {
  sorted = acquire-Sorted t rec sup now v.sorted;
  keyed = λ i r. acquire_key t now rec sup i r v;
  exclusive = λ i j r s a b same_holder.
      join (origin t now rec sup i r v.sorted a) (origin t now rec sup j s v.sorted b) same_holder;
}
  where
    decided : Decides t h e now (ok (grant sup))
    decided = subst (Decides t h e now) p (prepare_acquire_lem t h e now v.sorted)

    join :
        {i j : ℕ} {r s : LeaseRecord}
        → Origin t now rec sup i r
        → Origin t now rec sup j s
        → r.holder ≡ s.holder
        → i ≡ j
    join (inl (p, q)) (inl (p', q')) m = p ∙ sym p'
    join (inl (p, q)) (inr (b, free)) m = absurd (
        alone t h e now _ sup _ v decided b (sym m ∙ ap (λ (x : LeaseRecord). x.holder) q ∙ k) free)
    join (inr (a, free)) (inl (p', q')) m =
        absurd
          (alone t h e now _ sup _ v decided a (m ∙ ap (λ (x : LeaseRecord). x.holder) q' ∙ k) free)
    join (inr (a, free)) (inr (b, free')) m = v.exclusive _ _ _ _ a b m
