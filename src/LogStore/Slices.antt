-- ===== src/LogStore/Slices.antt =====
-- Selecting a map's entries by their keys, and what the operations of a batch do to a selection.
use Prim.Native.Nat.Ordering.{lt}
use tsoracle.Prelude.{
  Bool, true, ◌&&◌, none, [], ◌∷◌, ◌≡◌, refl, if◌then◌else◌, arith, inl, inr, Bool-cases,
}
use tsoracle.BTreeMap.{
  BTreeMap, same_eq, get, insert, Above, Sorted, get-insert, insert-Sorted, Above-Sorted, ext,
}
use tsoracle.BTreeMap.Ord.{Ord}
use tsoracle.LogStore.Database.{retain_keys}

module _ {ℓ κ} {K : Type ℓ} {V : Type κ} where
  pub retain-retain :
      (p q : K → Bool) (m : BTreeMap K V)
      → retain_keys p (retain_keys q m) ≡ retain_keys (λ k. p k && q k) m
  unfolding retain_keys
  retain-retain p q [] = refl
  retain-retain p q ((k, v) ∷ m) = elim (Bool-cases (q k)) [
    | inl yes_q ↦ ground (arith, retain-retain p q m)
    | inr no_q ↦ ground (arith, retain-retain p q m)
  ]

  -- A test that agrees on what another one lets through.
  pub retain-narrow :
      (p q r : K → Bool) (m : BTreeMap K V)
      → ((k : K) → p k ≡ true → q k ≡ r k)
      → retain_keys p (retain_keys q m) ≡ retain_keys r (retain_keys p m)
  unfolding retain_keys
  retain-narrow p q r [] h = refl
  retain-narrow p q r ((k, v) ∷ m) h = ground (arith, retain-narrow p q r m h, h k)

  -- A test that holds of all that another one lets through.
  pub retain-none :
      (p q : K → Bool) (m : BTreeMap K V)
      → ((k : K) → p k ≡ true → q k ≡ true)
      → retain_keys p (retain_keys q m) ≡ retain_keys p m
  unfolding retain_keys
  retain-none p q [] h = refl
  retain-none p q ((k, v) ∷ m) h = ground (arith, retain-none p q m h, h k)

module _ {ℓ κ} {K : Type ℓ} {V : Type κ} ⦃o : Ord K⦄ where
  retain-Above : (p : K → Bool) (i : K) (m : BTreeMap K V) → Above i m → Above i (retain_keys p m)
  unfolding retain_keys
  retain-Above p i [] a = tt
  retain-Above p i ((j, w) ∷ m) a =
      ground (arith, retain-Above p j m, lower i j (retain_keys p m) a.0)
    where
      lower : (i j : K) (m : BTreeMap K V) → o.cmp i j ≡ lt → Above j m → Above i m
      lower i j [] h b = tt
      lower i j ((k, w) ∷ m) h b = (o.transitive i j k h b.0, b.1)

  pub retain-Sorted : (p : K → Bool) (m : BTreeMap K V) → Sorted m → Sorted (retain_keys p m)
  unfolding retain_keys
  retain-Sorted p [] s = tt
  retain-Sorted p ((j, w) ∷ m) s =
      ground (arith, retain-Above p j m, retain-Sorted p m, Above-Sorted j m)

  pub get-retain :
      (p : K → Bool) (k : K) (m : BTreeMap K V)
      → get k (retain_keys p m) ≡ (if p k then get k m else none)
  unfolding get retain_keys
  get-retain p k [] = ground arith
  get-retain p k ((j, w) ∷ m) = ground (arith, same_eq k j, get-retain p k m)

  -- A key that the test lets through is inserted into the selection; another one is not seen.
  pub retain-insert :
      (p : K → Bool) (k : K) (v : V) (m : BTreeMap K V)
      → Sorted m
      → retain_keys p (insert k v m)
        ≡ (if p k then insert k v (retain_keys p m) else retain_keys p m)
  retain-insert p k v m s = elim (Bool-cases (p k)) [
    | inl in_ ↦ rw in_ (
        ext _ _ (retain-Sorted p (insert k v m) (insert-Sorted k v m s))
          (insert-Sorted k v (retain_keys p m) (retain-Sorted p m s))
          (λ j. ground (
            arith,
            get-retain p j (insert k v m),
            get-insert j k v m,
            get-insert j k v (retain_keys p m),
            get-retain p j m,
            same_eq j k,
          )))
    | inr out ↦ rw out (
        ext _ _ (retain-Sorted p (insert k v m) (insert-Sorted k v m s)) (retain-Sorted p m s) (λ j.
          ground (
            arith,
            get-retain p j (insert k v m),
            get-insert j k v m,
            get-retain p j m,
            same_eq j k,
          )))
  ]
