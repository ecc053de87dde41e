-- ===== src/Openraft/NewKeys.antt =====
-- The keys of a batch that have no counter: how many places a batch needs.
use tsoracle.Prelude.{
  ℕ, ◌+◌, ◌≡◌, refl, ap, Bool, true, false, not, ◌&&◌, if◌then◌else◌, Option, none, some, List, [],
  ◌∷◌, arith, inl, inr, Bool-cases,
}
use tsoracle.BTreeMap.{
  bytes_ord, same, same_eq, same_refl, get, insert, contains_key, len, get-insert, ext, Sorted,
  insert-Sorted, len-insert,
}
use tsoracle.Openraft.Entries.{DenseAdvance}
use tsoracle.Openraft.Counters.{Counters, new_keys}

-- Is the key in the batch?
abbrev named : List ℕ → List DenseAdvance → Bool
named k [] = false
named k (e ∷ es) = if same k e.key.bytes then true else named k es

-- A set of keys answers a lookup by its members.
abbrev as_member : Bool → Option (Unit {0})
as_member true = some tt
as_member false = none

new_keys-Sorted : (es : List DenseAdvance) (d : Counters) → Sorted (new_keys es d)
unfolding new_keys
new_keys-Sorted [] d = tt
new_keys-Sorted (e ∷ es) d =
    ground (arith, new_keys-Sorted es d, insert-Sorted e.key.bytes tt (new_keys es d))

-- A key that is in neither the batch nor, a fortiori, its new keys.
get-new_keys :
    (k : List ℕ) (es : List DenseAdvance) (d : Counters)
    → get k (new_keys es d) ≡ as_member (named k es && not (contains_key k d))
unfolding new_keys get contains_key
get-new_keys k [] d = refl
get-new_keys k (e ∷ es) d = elim (Bool-cases (same k e.key.bytes)) [
  | inl mine ↦ ground (
    arith,
    same_eq k e.key.bytes mine,
    get-new_keys k es d,
    get-insert k e.key.bytes tt (new_keys es d),
  )
  | inr other ↦ ground (arith, get-new_keys k es d, get-insert k e.key.bytes tt (new_keys es d))
]

contains-insert :
    (j k : List ℕ) (v : ℕ) (d : Counters)
    → contains_key j (insert k v d) ≡ (if same j k then true else contains_key j d)
unfolding contains_key
contains-insert j k v d = ground (arith, get-insert j k v d)

contains_same :
    (j k : List ℕ) (d : Counters) → same j k ≡ true → contains_key j d ≡ contains_key k d
contains_same j k d h = ap (λ x. contains_key x d) (same_eq j k h)

pub new_keys_known :
    (k : List ℕ) (v : ℕ) (es : List DenseAdvance) (d : Counters)
    → contains_key k d ≡ true
    → new_keys es (insert k v d) ≡ new_keys es d
new_keys_known k v es d h =
    ext (new_keys es (insert k v d)) (new_keys es d) (new_keys-Sorted es (insert k v d))
      (new_keys-Sorted es d)
      (λ j. ground (
        arith,
        get-new_keys j es (insert k v d),
        get-new_keys j es d,
        contains-insert j k v d,
        contains_same j k d,
      ))

insert-new_keys :
    (k : List ℕ) (v : ℕ) (es : List DenseAdvance) (d : Counters)
    → insert k tt (new_keys es d) ≡ insert k tt (new_keys es (insert k v d))
insert-new_keys k v es d =
    ext (insert k tt (new_keys es d)) (insert k tt (new_keys es (insert k v d)))
      (insert-Sorted k tt (new_keys es d) (new_keys-Sorted es d))
      (insert-Sorted k tt (new_keys es (insert k v d)) (new_keys-Sorted es (insert k v d)))
      (λ j. ground (
        arith,
        get-insert j k tt (new_keys es d),
        get-insert j k tt (new_keys es (insert k v d)),
        get-new_keys j es (insert k v d),
        get-new_keys j es d,
        contains-insert j k v d,
      ))

-- A key without a counter takes one place, and no place again once it has one.
pub len-new_keys :
    (k : List ℕ) (v : ℕ) (es : List DenseAdvance) (d : Counters)
    → len (insert k tt (new_keys es d)) ≡ len (new_keys es (insert k v d)) + 1
unfolding contains_key
len-new_keys k v es d = ground (
  arith,
  ap len (insert-new_keys k v es d),
  len-insert k tt (new_keys es (insert k v d)) (new_keys-Sorted es (insert k v d)),
  get-new_keys k es (insert k v d),
  contains-insert k k v d,
  same_refl k,
)
