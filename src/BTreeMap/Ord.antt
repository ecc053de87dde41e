-- ===== src/BTreeMap/Ord.antt =====
-- `K: Ord`, with the laws that the trait asks for, and the instances for words and byte strings.
use Prim.Native.Nat.{compare, Ordering}
use Prim.Native.Nat.Ordering.{lt, eq, gt}
use tsoracle.Prelude.{ℕ, ◌≡◌, refl, List, [], ◌∷◌, Bool, true, false, arith}

-- A total order in three outcomes.
pub record Ord {ℓ} (K : Type ℓ) : Type ℓ where
  pub cmp : K → K → Ordering
  pub transitive : (i j k : K) → cmp i j ≡ lt → cmp j k ≡ lt → cmp i k ≡ lt
  pub flips : (j k : K) → cmp j k ≡ gt → cmp k j ≡ lt
  pub identifies : (j k : K) → cmp j k ≡ eq → j ≡ k
  pub reflexive : (k : K) → cmp k k ≡ eq

abbrev pub is_eq : Ordering → Bool
is_eq eq = true
is_eq _ = false

-- `a == b` of the same order
abbrev pub same {ℓ} : {K : Type ℓ} ⦃o : Ord K⦄ → K → K → Bool
same ⦃o⦄ a b = is_eq (o.cmp a b)

pub word_trans : (i j k : ℕ) → compare i j ≡ lt → compare j k ≡ lt → compare i k ≡ lt
word_trans i j k h m = ground arith

pub word_flips : (j k : ℕ) → compare j k ≡ gt → compare k j ≡ lt
word_flips j k h = ground arith

pub word_identifies : (j k : ℕ) → compare j k ≡ eq → j ≡ k
word_identifies j k h = ground arith

pub word_refl : (k : ℕ) → compare k k ≡ eq
word_refl k = ground arith

instance abbrev pub nat_ord : Ord ℕ
nat_ord = record {
  cmp = compare;
  transitive = word_trans;
  flips = word_flips;
  identifies = word_identifies;
  reflexive = word_refl;
}

abbrev pub then_cmp : Ordering → Ordering → Ordering
then_cmp eq second = second
then_cmp first _ = first

-- Byte strings compare lexicographically.
unfoldable pub cmp_bytes : List ℕ → List ℕ → Ordering
cmp_bytes [] [] = eq
cmp_bytes [] (y ∷ ys) = lt
cmp_bytes (x ∷ xs) [] = gt
cmp_bytes (x ∷ xs) (y ∷ ys) = then_cmp (compare x y) (cmp_bytes xs ys)

pub bytes_refl : (a : List ℕ) → cmp_bytes a a ≡ eq
unfolding cmp_bytes
bytes_refl [] = refl
bytes_refl (x ∷ xs) = ground (arith, bytes_refl xs)

pub bytes_eq : (a b : List ℕ) → cmp_bytes a b ≡ eq → a ≡ b
unfolding cmp_bytes
bytes_eq [] [] h = refl
bytes_eq [] (y ∷ ys) h = cc
bytes_eq (x ∷ xs) [] h = cc
bytes_eq (x ∷ xs) (y ∷ ys) h = ground (arith, bytes_eq xs ys)

pub bytes_lt : (a b : List ℕ) → cmp_bytes a b ≡ gt → cmp_bytes b a ≡ lt
unfolding cmp_bytes
bytes_lt [] [] h = cc
bytes_lt [] (y ∷ ys) h = cc
bytes_lt (x ∷ xs) [] h = refl
bytes_lt (x ∷ xs) (y ∷ ys) h = ground (arith, bytes_lt xs ys)

pub bytes_trans : (a b c : List ℕ) → cmp_bytes a b ≡ lt → cmp_bytes b c ≡ lt → cmp_bytes a c ≡ lt
unfolding cmp_bytes
bytes_trans [] [] c h k = cc
bytes_trans [] (y ∷ ys) [] h k = cc
bytes_trans [] (y ∷ ys) (z ∷ zs) h k = refl
bytes_trans (x ∷ xs) [] c h k = cc
bytes_trans (x ∷ xs) (y ∷ ys) [] h k = cc
bytes_trans (x ∷ xs) (y ∷ ys) (z ∷ zs) h k = ground (arith, bytes_trans xs ys zs)

instance abbrev pub bytes_ord : Ord (List ℕ)
bytes_ord = record {
  cmp = cmp_bytes;
  transitive = bytes_trans;
  flips = bytes_lt;
  identifies = bytes_eq;
  reflexive = bytes_refl;
}
