-- ===== src/LogStore/Last.antt =====
-- The last row of a store's log, by the iterator that runs backwards.
use mathlib.Core.List.{reverse, reverse-cons}
use mathlib.Core.Path.{subst}
use Prim.Native.Nat.Ordering.{lt}
use tsoracle.Prelude.{
  ℕ, ◌≡◌, ◌∙◌, sym, ap, refl, not, Option, none, some, List, [], ◌∷◌, ◌++◌, Result, ok, ◌>>=◌,
  if◌then◌else◌, arith, inl, inr, Bool-cases,
}
use tsoracle.BTreeMap.{BTreeMap, bytes_ord, nat_ord, cmp_bytes, Sorted, bytes_trans}
use tsoracle.LogStore.{Store, IoError, decode_record, first_in_range, last_log_id_in_cf}
use tsoracle.LogStore.Database.{Content, log_family, lt_bytes, retain_keys, iter_reverse}
use tsoracle.LogStore.Slices.{retain-retain, retain-Sorted}
use tsoracle.LogStore.Matches.{Matches}
use tsoracle.LogStore.Reads.{slice}

module _ {ℓ} {A : Type ℓ} where
  abbrev pub head? : List A → Option A
  head? [] = none
  head? (x ∷ xs) = some x

  abbrev pub last? : List A → Option A
  last? [] = none
  last? (x ∷ []) = some x
  last? (x ∷ y ∷ xs) = last? (y ∷ xs)

  head-snoc : (xs ys : List A) (x y : A) → head? ((xs ++ (y ∷ [])) ++ ys) ≡ head? (xs ++ (y ∷ []))
  head-snoc [] ys x y = refl
  head-snoc (z ∷ xs) ys x y = refl

  head-reverse : (xs : List A) → head? (reverse xs) ≡ last? xs
  head-reverse [] = refl
  head-reverse (x ∷ []) = refl
  head-reverse (x ∷ y ∷ xs) =
      rw (reverse-cons x (y ∷ xs), reverse-cons y xs) (head-snoc (reverse xs) (x ∷ []) x y)
      ∙ ap head? (sym (reverse-cons y xs))
      ∙ head-reverse (y ∷ xs)

abbrev LastIn : List ℕ → Content → Option (List ℕ × List ℕ) → Type 0
LastIn lo c none = retain_keys (λ k. not (lt_bytes k lo)) c ≡ []
LastIn lo c (some (k, v)) =
    if lt_bytes k lo
    then retain_keys (λ j. not (lt_bytes j lo)) c ≡ []
    else last? (retain_keys (λ j. not (lt_bytes j lo)) c) ≡ some (k, v)

LastIn-step :
    (lo k v j w : List ℕ) (c : Content) (o : Option (List ℕ × List ℕ))
    → cmp_bytes k j ≡ lt
    → LastIn lo ((j, w) ∷ c) o
    → LastIn lo ((k, v) ∷ (j, w) ∷ c) o
unfolding retain_keys
LastIn-step lo k v j w c none a h = ground (arith, bytes_trans j lo k, bytes_trans k j lo a)
LastIn-step lo k v j w c (some (i, u)) a h = ground (arith, bytes_trans k j lo a)

last-LastIn : (lo : List ℕ) (c : Content) → Sorted c → LastIn lo c (last? c)
unfolding retain_keys
last-LastIn lo [] o = refl
last-LastIn lo ((k, v) ∷ []) o = elim (Bool-cases (lt_bytes k lo)) [
  | inl low ↦ rw low refl
  | inr high ↦ rw high refl
]
last-LastIn lo ((k, v) ∷ (j, w) ∷ c) o =
    LastIn-step lo k v j w c (last? ((j, w) ∷ c)) o.0 (last-LastIn lo ((j, w) ∷ c) o.1)

module _ {D E V L : Type 0} (s : Store D E V L) where
  abbrev pub last_entry : BTreeMap ℕ E → Option L
  last_entry [] = none
  last_entry ((i, e) ∷ []) = some (s.log_id e)
  last_entry ((i, e) ∷ x ∷ m) = last_entry (x ∷ m)

  abbrev by_head : Option (List ℕ × List ℕ) → Result IoError (Option L)
  by_head none = ok none
  by_head (some (k, v)) =
      if lt_bytes k s.keys.range_lo
      then ok none
      else (decode_record s.entries v >>= λ e. ok (some (s.log_id e)))

  first_by_head : (c : Content) → first_in_range s c ≡ by_head (head? c)
  unfolding first_in_range
  first_by_head [] = refl
  first_by_head ((k, v) ∷ c) = refl

  abbrev decoded : Option (List ℕ × List ℕ) → Result IoError (Option L)
  decoded none = ok none
  decoded (some (k, v)) = decode_record s.entries v >>= λ e. ok (some (s.log_id e))

  nothing_last : (m : BTreeMap ℕ E) → Matches s [] m → last_entry m ≡ none
  nothing_last [] h = refl
  nothing_last (x ∷ m) h = absurd h

  last-Matches :
      (c : Content) (m : BTreeMap ℕ E) → Matches s c m → decoded (last? c) ≡ ok (last_entry m)
  last-Matches [] [] h = refl
  last-Matches [] (x ∷ m) h = absurd h
  last-Matches (r ∷ c) [] h = absurd h
  last-Matches ((k, w) ∷ []) ((j, e) ∷ []) ((key, low, dec, at), h) = rw dec refl
  last-Matches ((k, w) ∷ []) ((j, e) ∷ x ∷ m) h = absurd h.1
  last-Matches ((k, w) ∷ r ∷ c) ((j, e) ∷ []) h = absurd h.1
  last-Matches ((k, w) ∷ r ∷ c) ((j, e) ∷ x ∷ m) h = last-Matches (r ∷ c) (x ∷ m) h.1

  by_last :
      (c : Content) (m : BTreeMap ℕ E) (o : Option (List ℕ × List ℕ))
      → LastIn s.keys.range_lo c o
      → Matches s (retain_keys (λ k. not (lt_bytes k s.keys.range_lo)) c) m
      → by_head o ≡ ok (last_entry m)
  by_last c m none h k = ap ok (sym (nothing_last m (subst (λ r. Matches s r m) h k)))
  by_last c m (some (j, v)) h k = elim (Bool-cases (lt_bytes j s.keys.range_lo)) [
    | inl low ↦ rw low (ap ok (sym (nothing_last m (subst (λ r. Matches s r m) (rw low at h) k))))
    | inr high ↦ rw high (ap decoded (sym (rw high at h)) ∙ last-Matches _ m k)
  ]

  pub last_log_id_in_cf_lem :
      (d : D) (m : BTreeMap ℕ E)
      → Matches s (slice s d) m
      → last_log_id_in_cf s d ≡ ok (last_entry m)
  unfolding last_log_id_in_cf iter_reverse
  last_log_id_in_cf_lem d m h =
      let below = retain_keys (λ k. not (lt_bytes s.keys.range_hi k)) (s.db.scan log_family d) in
      first_by_head (reverse below)
      ∙ ap by_head (head-reverse below)
      ∙ by_last below m (last? below)
          (last-LastIn s.keys.range_lo below (retain-Sorted _ _ (s.db.scan_sorted log_family d)))
          (subst (λ c. Matches s c m) (sym (retain-retain _ _ (s.db.scan log_family d))) h)
