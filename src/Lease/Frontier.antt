-- ===== src/Lease/Frontier.antt =====
-- The lease term of the safe frontier: the least bound of the leases that have not expired.
use tsoracle.Prelude.{
  ℕ, ◌≤◌, ◌≡◌, inl, inr, leb, false, Option, none, some, [], ◌∷◌, arith, Bool-cases, Option-cases,
}
use tsoracle.BTreeMap.{get, Sorted, Above, nat_ord, same_refl, Above-Sorted, get_tail}
use tsoracle.Lease.{LeaseRecord, LeaseTable, is_expired, min_unexpired_bound}

abbrev pub AtMost : Option ℕ → ℕ → Type 0
AtMost none x = ⊥
AtMost (some b) x = b ≤ x

bound-AtMost :
    (t : LeaseTable) (now i : ℕ) (r : LeaseRecord)
    → get i t ≡ some r
    → is_expired now r ≡ false
    → AtMost (min_unexpired_bound t now) r.ts_upper_bound
unfolding min_unexpired_bound get
bound-AtMost [] now i r e live = cc
bound-AtMost ((j, s) ∷ t) now i r e live = ground (arith, bound-AtMost t now i r)

-- A lease that has not expired and has the bound `b`.
abbrev pub Holds : LeaseTable → ℕ → ℕ → Type 0
Holds t now b =
    (i : ℕ) × (r : LeaseRecord) × (get i t ≡ some r)
    × (is_expired now r ≡ false)
    × (r.ts_upper_bound ≡ b)

Holds-tail :
    (t : LeaseTable) (now b j : ℕ) (s : LeaseRecord)
    → Above j t
    → Holds t now b
    → Holds ((j, s) ∷ t) now b
Holds-tail t now b j s a (i, r, e, live, same_bound) =
    (i, r, get_tail i j s t a e, live, same_bound)

bound-Holds :
    (t : LeaseTable) (now b : ℕ) → Sorted t → min_unexpired_bound t now ≡ some b → Holds t now b
unfolding min_unexpired_bound get
bound-Holds [] now b s e = cc
bound-Holds ((j, r) ∷ t) now b s e = elim (Bool-cases (is_expired now r)) [
  | inl gone ↦ Holds-tail t now b j r s (bound-Holds t now b (Above-Sorted j t s) (ground arith))
  | inr live ↦ elim (Option-cases (min_unexpired_bound t now)) [
    | inl alone ↦ (j, r, ground (arith, same_refl j), live, ground arith)
    | inr (c, f) ↦ elim (Bool-cases (leb r.ts_upper_bound c)) [
      | inl mine ↦ (j, r, ground (arith, same_refl j), live, ground arith)
      | inr other ↦
          Holds-tail t now b j r s (bound-Holds t now b (Above-Sorted j t s) (ground arith))
    ]
  ]
]

-- Of a table in order the frontier's lease term is the bound of some unexpired lease, superseded or
-- not, and no unexpired lease has a lower one; without a term there is no such lease.
pub min_unexpired_bound_lem :
    (t : LeaseTable) (now : ℕ)
    → Sorted t
    → ((b : ℕ) → min_unexpired_bound t now ≡ some b → Holds t now b)
      × ((i : ℕ) (r : LeaseRecord)
          → get i t ≡ some r
          → is_expired now r ≡ false
          → AtMost (min_unexpired_bound t now) r.ts_upper_bound)
min_unexpired_bound_lem t now s = (λ b. bound-Holds t now b s, bound-AtMost t now)
