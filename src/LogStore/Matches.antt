-- ===== src/LogStore/Matches.antt =====
-- Rows of the database that stand for entries by index, kept by insertions and by selections.
use tsoracle.Prelude.{
  ℕ, ◌<◌, ◌≡◌, refl, Bool, false, List, [], ◌∷◌, Result, ok, ◌>>=◌, u64_max, arith,
}
use tsoracle.BTreeMap.{
  BTreeMap, bytes_ord, nat_ord, insert, Above, Sorted, Above-Sorted, bytes_trans,
}
use tsoracle.LogStore.{Store, IoError, decode_record, collect_until}
use tsoracle.LogStore.Database.{Content, lt_bytes, retain_keys}
use tsoracle.LogStore.Keys.Order.{IsKeySpace}

module _ {D E V L : Type 0} (s : Store D E V L) where
  -- A row is the key of an index and a record of the entry at that index.
  abbrev pub Row : List ℕ × List ℕ → ℕ × E → Type 0
  Row (k, v) (i, e) =
      (k ≡ s.keys.log_key i)
      × (i < u64_max)
      × (decode_record s.entries v ≡ ok e)
      × (s.index (s.log_id e) ≡ i)

  abbrev pub Matches : Content → BTreeMap ℕ E → Type 0
  Matches [] [] = Unit
  Matches [] (x ∷ m) = ⊥
  Matches (r ∷ c) [] = ⊥
  Matches (r ∷ c) (x ∷ m) = Row r x × Matches c m

  module _ (ks : IsKeySpace s.keys) where
    pub Matches-insert :
        (c : Content) (m : BTreeMap ℕ E) (i : ℕ) (v : List ℕ) (e : E)
        → Row (s.keys.log_key i, v) (i, e)
        → Matches c m
        → Matches (insert (s.keys.log_key i) v c) (insert i e m)
    unfolding insert
    Matches-insert [] [] i v e r h = (r, tt)
    Matches-insert [] (x ∷ m) i v e r h = absurd h
    Matches-insert (q ∷ c) [] i v e r h = absurd h
    Matches-insert ((k, w) ∷ c) ((j, f) ∷ m) i v e r ((key, low, dec, at), h) =
        ground (arith, ks.ordered i j (omega arith) (omega arith), Matches-insert c m i v e r h)

    pub Matches-retain :
        (p : List ℕ → Bool) (q : ℕ → Bool) (c : Content) (m : BTreeMap ℕ E)
        → ((i : ℕ) → i < u64_max → p (s.keys.log_key i) ≡ q i)
        → Matches c m
        → Matches (retain_keys p c) (retain_keys q m)
    unfolding retain_keys
    Matches-retain p q [] [] a h = tt
    Matches-retain p q [] (x ∷ m) a h = absurd h
    Matches-retain p q (r ∷ c) [] a h = absurd h
    Matches-retain p q ((k, w) ∷ c) ((j, f) ∷ m) a ((key, low, dec, at), h) =
        ground (arith, a j low, Matches-retain p q c m a h)

  -- The records of rows, decoded.
  unfoldable pub collect_all : Content → Result IoError (List E)
  unfolding decode_record
  collect_all [] = ok []
  collect_all ((k, v) ∷ it) =
      decode_record s.entries v >>= λ e. collect_all it >>= λ out. ok (e ∷ out)

  abbrev pub entries_of : BTreeMap ℕ E → List E
  entries_of [] = []
  entries_of ((i, e) ∷ m) = e ∷ entries_of m

  pub collect-Matches :
      (c : Content) (m : BTreeMap ℕ E) → Matches c m → collect_all c ≡ ok (entries_of m)
  unfolding collect_all
  collect-Matches [] [] h = refl
  collect-Matches [] (x ∷ m) h = absurd h
  collect-Matches (r ∷ c) [] h = absurd h
  collect-Matches ((k, w) ∷ c) ((j, f) ∷ m) ((key, low, dec, at), h) =
      rw dec (rw (collect-Matches c m h) refl)

  past_end :
      (end k : List ℕ) (c : Content)
      → lt_bytes k end ≡ false
      → Above k c
      → retain_keys (λ j. lt_bytes j end) c ≡ []
  unfolding retain_keys
  past_end end k [] h a = refl
  past_end end k ((j, w) ∷ c) h (a, b) = ground (arith, past_end end j c, bytes_trans k j end a)

  -- Up to the first key that is not below the end is all that is below the end.
  pub collect_until-eq :
      (end : List ℕ) (c : Content)
      → Sorted c
      → collect_until s end c ≡ collect_all (retain_keys (λ j. lt_bytes j end) c)
  unfolding collect_until collect_all retain_keys
  collect_until-eq end [] o = refl
  collect_until-eq end ((k, v) ∷ c) o =
      ground (arith, past_end end k c, collect_until-eq end c (Above-Sorted k c o))
