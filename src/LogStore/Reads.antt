-- ===== src/LogStore/Reads.antt =====
-- What a read of a range of indices answers.
use tsoracle.Prelude.{
  ℕ, ◌<◌, ◌≤◌, ◌≡◌, ◌∙◌, sym, ap, refl, Bool, true, false, not, ◌&&◌, leb, ltb, List, [], ◌∷◌, ok,
  u64_max, arith, inl, inr, Bool-cases,
}
use tsoracle.BTreeMap.{BTreeMap, bytes_ord, nat_ord}
use tsoracle.LogStore.{
  Store, Bound, included, excluded, unbounded, start_of, end_of, range_boundary,
  try_get_log_entries,
}
use tsoracle.LogStore.Database.{Content, log_family, lt_bytes, retain_keys, iter_forward}
use tsoracle.LogStore.Keys.Order.{
  IsKeySpace, in_range, at_most_trans, below_trans, not_above_of_below,
}
use tsoracle.LogStore.Slices.{retain-retain, retain-none, retain-Sorted}
use tsoracle.LogStore.Matches.{
  Matches, Matches-retain, collect_all, collect-Matches, collect_until-eq, entries_of,
}

module _ {D E V L : Type 0} (s : Store D E V L) where
  -- The rows of this store's log in a family that others may share.
  abbrev pub slice : D → Content
  slice d = retain_keys (in_range s.keys) (s.db.scan log_family d)

abbrev pub from_start : Bound → ℕ → Bool
from_start (included n) i = leb n i
from_start (excluded n) i = ltb n i
from_start unbounded i = true

abbrev pub to_end : Bound → ℕ → Bool
to_end (included n) i = leb i n
to_end (excluded n) i = ltb i n
to_end unbounded i = true

-- The indices of a range of `u64`, by what its bounds mean.
abbrev pub within : Bound → Bound → ℕ → Bool
within from to i = from_start from i && to_end to i

abbrev pub IsBound : Bound → Type 0
IsBound (included n) = n ≤ u64_max
IsBound (excluded n) = n ≤ u64_max
IsBound unbounded = Unit

pub start_lem :
    (b : Bound) (i : ℕ)
    → i < u64_max
    → IsBound b
    → (start_of b ≤ u64_max) × (leb (start_of b) i ≡ from_start b i)
start_lem (included n) i h k = ground arith
start_lem (excluded n) i h k = ground arith
start_lem unbounded i h k = ground arith

pub end_lem :
    (b : Bound) (i : ℕ)
    → i < u64_max
    → IsBound b
    → (end_of b ≤ u64_max) × (ltb i (end_of b) ≡ to_end b i)
end_lem (included n) i h k = ground arith
end_lem (excluded n) i h k = ground arith
end_lem unbounded i h k = ground arith

and_parts : (a b : Bool) → (a && not b) ≡ true → (a ≡ true) × (b ≡ false)
and_parts a b h = ground arith

module _ {D E V L : Type 0} (s : Store D E V L) (ks : IsKeySpace s.keys) where
  module _ (start end : ℕ) (fits : start ≤ u64_max) (fits' : end ≤ u64_max) where
    abbrev between : List ℕ → Bool
    between k = lt_bytes k (s.keys.log_key end) && not (lt_bytes k (s.keys.log_key start))

    between-in_range : (k : List ℕ) → between k ≡ true → in_range s.keys k ≡ true
    between-in_range k h =
        let (before, after) =
          and_parts (lt_bytes k (s.keys.log_key end)) (lt_bytes k (s.keys.log_key start)) h in
        rw
          (
            at_most_trans s.keys.range_lo (s.keys.log_key start) k (ks.above_lo start (omega arith))
                after,
            not_above_of_below k s.keys.range_hi (
                below_trans k (s.keys.log_key end) s.keys.range_hi before
                  (ks.below_hi end (omega arith))),
          )
          refl

    between-index :
        (i : ℕ) → i < u64_max → between (s.keys.log_key i) ≡ (ltb i end && not (ltb i start))
    between-index i h = ground (
      arith,
      ks.ordered i end (omega arith) (omega arith),
      ks.ordered i start (omega arith) (omega arith),
    )

    collect_range :
        (d : D) (m : BTreeMap ℕ E)
        → Matches s (slice s d) m
        → collect_all s (retain_keys between (s.db.scan log_family d))
          ≡ ok (entries_of s (retain_keys (λ i. ltb i end && not (ltb i start)) m))
    collect_range d m h =
        ap (collect_all s)
          (sym (retain-none between (in_range s.keys) (s.db.scan log_family d) between-in_range))
        ∙ collect-Matches s _ _ (
            Matches-retain s ks between (λ i. ltb i end && not (ltb i start)) (slice s d) m
              between-index h)

  within_lem :
      (from to : Bound) (i : ℕ)
      → IsBound from
      → IsBound to
      → i < u64_max
      → (ltb i (end_of to) && not (ltb i (start_of from))) ≡ within from to i
  within_lem from to i f t h = ground (arith, start_lem from i h f, end_lem to i h t)

  retain_ext :
      (p q : ℕ → Bool) (c : Content) (m : BTreeMap ℕ E)
      → ((i : ℕ) → i < u64_max → p i ≡ q i)
      → Matches s c m
      → retain_keys p m ≡ retain_keys q m
  unfolding retain_keys
  retain_ext p q [] [] a h = refl
  retain_ext p q [] (x ∷ m) a h = absurd h
  retain_ext p q (r ∷ c) [] a h = absurd h
  retain_ext p q ((k, w) ∷ c) ((j, e) ∷ m) a ((key, low, dec, at), h) =
      ground (arith, a j low, retain_ext p q c m a h)

  retain_nothing :
      (p : ℕ → Bool) (c : Content) (m : BTreeMap ℕ E)
      → ((i : ℕ) → i < u64_max → p i ≡ false)
      → Matches s c m
      → retain_keys p m ≡ []
  unfolding retain_keys
  retain_nothing p [] [] a h = refl
  retain_nothing p [] (x ∷ m) a h = absurd h
  retain_nothing p (r ∷ c) [] a h = absurd h
  retain_nothing p ((k, w) ∷ c) ((j, e) ∷ m) a ((key, low, dec, at), h) =
      ground (arith, a j low, retain_nothing p c m a h)

  -- A read answers the entries whose indices are in the range, in order.
  pub try_get_log_entries_lem :
      (from to : Bound) (d : D) (m : BTreeMap ℕ E)
      → IsBound from
      → IsBound to
      → Matches s (slice s d) m
      → try_get_log_entries s from to d ≡ ok (entries_of s (retain_keys (within from to) m))
  unfolding try_get_log_entries range_boundary iter_forward
  try_get_log_entries_lem from to d m f t h = elim (Bool-cases (leb (end_of to) (start_of from))) [
    | inl none_ ↦ rw none_ (
        ap ok (
          ap (entries_of s) (
            sym (
              retain_nothing (within from to) (slice s d) m
                (λ i l. ground (arith, within_lem from to i f t l)) h))))
    | inr some_ ↦ rw some_ (
        collect_until-eq s (s.keys.log_key (end_of to)) _
          (retain-Sorted _ _ (s.db.scan_sorted log_family d))
        ∙ ap (collect_all s) (retain-retain _ _ (s.db.scan log_family d))
        ∙ collect_range (start_of from) (end_of to) (start_lem from 0 (omega arith) f).0
            (end_lem to 0 (omega arith) t).0 d m h
        ∙ ap ok (
            ap (entries_of s)
              (retain_ext _ (within from to) (slice s d) m (λ i l. within_lem from to i f t l) h)))
  ]
