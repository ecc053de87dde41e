-- ===== src/BTreeMap/Laws.antt =====
-- Lookup after each operation, and that the keys stay in order.
use Prim.Native.Nat.Ordering.{lt}
use tsoracle.Prelude.{◌+◌, Bool, true, none, some, [], ◌∷◌, ◌≡◌, refl, if◌then◌else◌, arith}
use tsoracle.BTreeMap.Ord.{Ord, same}
use tsoracle.BTreeMap.Map.{
  BTreeMap, len, retain, get, contains_key, insert, remove, update, Above, Sorted,
}

module _ {ℓ} {K : Type ℓ} ⦃o : Ord K⦄ where
  pub same_refl : (k : K) → same k k ≡ true
  same_refl k = ground (arith, o.reflexive k)

  pub same_eq : (k j : K) → same k j ≡ true → k ≡ j
  same_eq k j h = ground (arith, o.identifies k j)

module _ {ℓ κ} {K : Type ℓ} {V : Type κ} ⦃o : Ord K⦄ where
  pub get-insert :
      (j k : K) (v : V) (m : BTreeMap K V)
      → get j (insert k v m) ≡ (if same j k then some v else get j m)
  unfolding get insert
  get-insert j k v [] = refl
  get-insert j k v ((i, w) ∷ m) =
      ground (arith, o.identifies k i, o.identifies j k, o.reflexive j, get-insert j k v m)

  Above-trans : (i j : K) (m : BTreeMap K V) → o.cmp i j ≡ lt → Above j m → Above i m
  Above-trans i j [] h a = tt
  Above-trans i j ((k, w) ∷ m) h a = (o.transitive i j k h a.0, a.1)

  pub Above-Sorted : (k : K) (m : BTreeMap K V) → Above k m → Sorted m
  Above-Sorted k [] a = tt
  Above-Sorted k ((j, w) ∷ m) a = a.1

  pub get-Above : (k : K) (m : BTreeMap K V) → Above k m → get k m ≡ none
  unfolding get
  get-Above k [] a = refl
  get-Above k ((j, w) ∷ m) a =
      ground (arith, o.reflexive k, get-Above k m (Above-trans k j m a.0 a.1))

  -- What is found behind the first key is found in the whole map.
  pub get_tail :
      (k j : K) (w : V) (m : BTreeMap K V) {v : V}
      → Above j m
      → get k m ≡ some v
      → get k ((j, w) ∷ m) ≡ some v
  unfolding get
  get_tail k j w m a e = ground (arith, o.identifies k j, get-Above j m a)

  insert-Above :
      (i k : K) (v : V) (m : BTreeMap K V) → o.cmp i k ≡ lt → Above i m → Above i (insert k v m)
  unfolding insert
  insert-Above i k v [] h a = (h, tt)
  insert-Above i k v ((j, w) ∷ m) h a =
      ground (arith, o.identifies k j, o.flips k j, insert-Above j k v m)

  pub insert-Sorted : (k : K) (v : V) (m : BTreeMap K V) → Sorted m → Sorted (insert k v m)
  unfolding insert
  insert-Sorted k v [] s = tt
  insert-Sorted k v ((j, w) ∷ m) s =
      ground (arith, o.identifies k j, o.flips k j, insert-Above j k v m)

  remove-Above : (i k : K) (m : BTreeMap K V) → Above i m → Above i (remove k m)
  unfolding remove
  remove-Above i k [] a = tt
  remove-Above i k ((j, w) ∷ m) a = ground (arith, remove-Above j k m, Above-trans i j m)

  pub remove-Sorted : (k : K) (m : BTreeMap K V) → Sorted m → Sorted (remove k m)
  unfolding remove
  remove-Sorted k [] s = tt
  remove-Sorted k ((j, w) ∷ []) s = ground arith
  remove-Sorted k ((j, w) ∷ (i, u) ∷ m) s = ground (arith, remove-Above j k ((i, u) ∷ m))

  retain-Above : (p : V → Bool) (i : K) (m : BTreeMap K V) → Above i m → Above i (retain p m)
  unfolding retain
  retain-Above p i [] a = tt
  retain-Above p i ((j, w) ∷ m) a = ground (arith, retain-Above p j m, Above-trans i j (retain p m))

  pub retain-Sorted : (p : V → Bool) (m : BTreeMap K V) → Sorted m → Sorted (retain p m)
  unfolding retain
  retain-Sorted p [] s = tt
  retain-Sorted p ((j, w) ∷ m) s =
      ground (arith, retain-Above p j m, retain-Sorted p m, Above-Sorted j m)

  pub get-retain :
      (p : V → Bool) (k : K) (m : BTreeMap K V)
      → Sorted m
      → get k (retain p m)
        ≡ (elim (get k m) [ none ↦ none | some v ↦ if p v then some v else none ])
  unfolding get retain
  get-retain p k [] s = refl
  get-retain p k ((j, w) ∷ m) s = ground (
    arith,
    o.identifies k j,
    get-retain p k m (Above-Sorted j m s),
    get-Above j (retain p m) (retain-Above p j m s),
  )

  pub get-remove :
      (j k : K) (m : BTreeMap K V)
      → Sorted m
      → get j (remove k m) ≡ (if same j k then none else get j m)
  unfolding get remove
  get-remove j k [] s = ground arith
  get-remove j k ((i, w) ∷ m) s = ground (
    arith,
    o.identifies k i,
    o.identifies j k,
    o.identifies j i,
    o.reflexive j,
    get-remove j k m (Above-Sorted i m s),
    get-Above i m s,
  )

  pub get-update :
      (j k : K) (f : V → V) (m : BTreeMap K V)
      → get j (update k f m)
        ≡ (if same j k then elim (get j m) [ none ↦ none | some v ↦ some (f v) ] else get j m)
  unfolding get update
  get-update j k f [] = ground arith
  get-update j k f ((i, w) ∷ m) = ground (
    arith,
    o.identifies k i,
    o.identifies j k,
    o.identifies j i,
    o.reflexive j,
    get-update j k f m,
  )

  update-Above : (i k : K) (f : V → V) (m : BTreeMap K V) → Above i m → Above i (update k f m)
  unfolding update
  update-Above i k f [] a = tt
  update-Above i k f ((j, w) ∷ m) a = ground (arith, update-Above j k f m)

  pub update-Sorted : (k : K) (f : V → V) (m : BTreeMap K V) → Sorted m → Sorted (update k f m)
  unfolding update
  update-Sorted k f [] s = tt
  update-Sorted k f ((j, w) ∷ m) s = ground (arith, update-Above j k f m)

  pub len-insert :
      (k : K) (v : V) (m : BTreeMap K V)
      → Sorted m
      → len (insert k v m) ≡ (if contains_key k m then len m else len m + 1)
  unfolding insert contains_key
  len-insert k v [] s = omega arith
  len-insert k v ((j, w) ∷ m) s =
      ground (arith, len-insert k v m (Above-Sorted j m s), get-Above k ((j, w) ∷ m))

  heads_eq :
      (i j : K) (v w : V) (m n : BTreeMap K V)
      → Above i m
      → Above j n
      → get i ((i, v) ∷ m) ≡ get i ((j, w) ∷ n)
      → get j ((i, v) ∷ m) ≡ get j ((j, w) ∷ n)
      → (i ≡ j) × (v ≡ w)
  unfolding get
  heads_eq i j v w m n s t h k = ground (
    arith,
    o.identifies i j,
    o.identifies j i,
    o.flips i j,
    o.reflexive i,
    o.reflexive j,
    get-Above i ((j, w) ∷ n),
    get-Above j ((i, v) ∷ m),
  )

  tails_eq :
      (k i j : K) (v w : V) (m n : BTreeMap K V)
      → i ≡ j
      → Above i m
      → Above j n
      → get k ((i, v) ∷ m) ≡ get k ((j, w) ∷ n)
      → get k m ≡ get k n
  unfolding get
  tails_eq k i j v w m n e s t h =
      ground (arith, o.identifies k i, o.identifies k j, get-Above i m s, get-Above j n t)

  -- Two maps in order that answer every lookup alike are the same.
  pub ext : (m n : BTreeMap K V) → Sorted m → Sorted n → ((k : K) → get k m ≡ get k n) → m ≡ n
  unfolding get
  ext [] [] s t h = refl
  ext [] ((j, w) ∷ n) s t h = ground (arith, h j, o.reflexive j)
  ext ((i, v) ∷ m) [] s t h = ground (arith, h i, o.reflexive i)
  ext ((i, v) ∷ m) ((j, w) ∷ n) s t h =
      let (p, q) = heads_eq i j v w m n s t (h i) (h j) in
      cc (
        p,
        q,
        ext m n (Above-Sorted i m s) (Above-Sorted j n t) (λ k. tails_eq k i j v w m n p s t (h k)),
      )
