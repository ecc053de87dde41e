-- ===== src/BTreeMap/Map.antt =====
-- `BTreeMap<K, V>`: the operations that the program calls.
use Prim.Native.Nat.Ordering.{lt, eq, gt}
use tsoracle.Prelude.{
  ℕ, Bool, true, false, Option, none, some, List, [], ◌∷◌, length, ◌≡◌, if◌then◌else◌,
}
use tsoracle.BTreeMap.Ord.{Ord, same}

abbrev pub BTreeMap {ℓ κ} : Type ℓ → Type κ → Type (ℓ ⊔ κ)
BTreeMap K V = List (K × V)

module _ {ℓ κ} {K : Type ℓ} {V : Type κ} where
  abbrev pub len : BTreeMap K V → ℕ
  len m = length m

  abbrev pub values : BTreeMap K V → List V
  values [] = []
  values ((k, v) ∷ m) = v ∷ values m

  -- `retain`, and `iter().filter(…)`, by the value
  unfoldable pub retain : (V → Bool) → BTreeMap K V → BTreeMap K V
  retain p [] = []
  retain p ((k, v) ∷ m) = let rest = retain p m in if p v then (k, v) ∷ rest else rest

module _ {ℓ κ} {K : Type ℓ} {V : Type κ} ⦃o : Ord K⦄ where
  unfoldable pub get : K → BTreeMap K V → Option V
  get k [] = none
  get k ((j, w) ∷ m) = if same k j then some w else get k m

  unfoldable pub contains_key : K → BTreeMap K V → Bool
  unfolding get
  contains_key k m = elim (get k m) [ none ↦ false | some v ↦ true ]

  unfoldable pub insert : K → V → BTreeMap K V → BTreeMap K V
  insert k v [] = (k, v) ∷ []
  insert k v ((j, w) ∷ m) = elim (o.cmp k j) [
    | lt ↦ (k, v) ∷ (j, w) ∷ m
    | eq ↦ (k, v) ∷ m
    | gt ↦ (j, w) ∷ insert k v m
  ]

  unfoldable pub remove : K → BTreeMap K V → BTreeMap K V
  remove k [] = []
  remove k ((j, w) ∷ m) = if same k j then m else (j, w) ∷ remove k m

  -- a write through `get_mut`
  unfoldable pub update : K → (V → V) → BTreeMap K V → BTreeMap K V
  update k f [] = []
  update k f ((j, w) ∷ m) = if same k j then (j, f w) ∷ m else (j, w) ∷ update k f m

  -- The keys ascend, from above `k`.
  abbrev pub Above : K → BTreeMap K V → Type 0
  Above k [] = Unit
  Above k ((j, w) ∷ m) = (o.cmp k j ≡ lt) × Above j m

  abbrev pub Sorted : BTreeMap K V → Type 0
  Sorted [] = Unit
  Sorted ((k, v) ∷ m) = Above k m
