-- ===== src/LogStore/Keys/Order.antt =====
-- What the layouts of keys promise: log keys in the order of the indices, within their range.
use Prim.Native.Nat.{compare}
use Prim.Native.Nat.Ordering.{lt, eq}
use native.Mathlib.Nat.{pow-suc}
use tsoracle.Prelude.{
  ℕ, zero, suc, ◌/◌, ◌%◌, ◌^◌, ◌<◌, ◌≡◌, refl, sym, ap, ◌-◌, ◌∙◌, Bool, false, true, not, ◌&&◌,
  List, [], ◌∷◌, ◌++◌, length, length-append, arith,
}
use tsoracle.BTreeMap.{bytes_ord, cmp_bytes, then_cmp, bytes_trans, bytes_eq, bytes_refl, bytes_lt}
use tsoracle.LogStore.Database.{is_lt, lt_bytes}
use tsoracle.LogStore.Keys.{
  KeySpace, MetaLabel, vote, committed, last_purged, as_bytes, to_be_bytes, zeros, ones, flat,
  group_prefixed,
}

abbrev pub in_range : KeySpace → List ℕ → Bool
in_range ks k = not (lt_bytes k ks.range_lo) && not (lt_bytes ks.range_hi k)

-- `a` is not above `b`, nor `b` above `c`.
pub at_most_trans :
    (a b c : List ℕ) → lt_bytes b a ≡ false → lt_bytes c b ≡ false → lt_bytes c a ≡ false
at_most_trans a b c h k = ground (arith, bytes_trans c a b, bytes_eq b a, bytes_lt b a)

-- `a` is below `b`, and `b` not above `c`.
pub below_trans :
    (a b c : List ℕ) → lt_bytes a b ≡ true → lt_bytes c b ≡ false → lt_bytes a c ≡ true
below_trans a b c h k = ground (arith, bytes_trans a b c, bytes_eq c b, bytes_lt c b)

pub not_above_of_below : (a b : List ℕ) → lt_bytes a b ≡ true → lt_bytes b a ≡ false
not_above_of_below a b h = ground (arith, bytes_trans a b a, bytes_refl a)

pub record IsKeySpace (ks : KeySpace) : Type 0 where
  pub ordered :
      (i j : ℕ) → i < 2 ^ 64 → j < 2 ^ 64 → cmp_bytes (ks.log_key i) (ks.log_key j) ≡ compare i j
  pub above_lo : (i : ℕ) → i < 2 ^ 64 → lt_bytes (ks.log_key i) ks.range_lo ≡ false
  pub below_hi : (i : ℕ) → i < 2 ^ 64 → lt_bytes ks.range_hi (ks.log_key i) ≡ false
  pub before_end :
      (k : List ℕ) → lt_bytes ks.range_hi k ≡ false → lt_bytes k ks.log_end_bound ≡ true
  pub labels : (l m : MetaLabel) → ks.meta_key l ≡ ks.meta_key m → l ≡ m

pub cmp_bytes-append :
    (a b x y : List ℕ)
    → length a ≡ length b
    → cmp_bytes (a ++ x) (b ++ y) ≡ then_cmp (cmp_bytes a b) (cmp_bytes x y)
unfolding cmp_bytes
cmp_bytes-append [] [] x y h = refl
cmp_bytes-append [] (j ∷ b) x y h = cc
cmp_bytes-append (i ∷ a) [] x y h = cc
cmp_bytes-append (i ∷ a) (j ∷ b) x y h = ground (arith, cmp_bytes-append a b x y (omega arith))

pub length-to_be_bytes : (w v : ℕ) → length (to_be_bytes w v) ≡ w
unfolding to_be_bytes
length-to_be_bytes zero v = refl
length-to_be_bytes (suc w) v = omega (
  arith,
  length-append {0} (to_be_bytes w (v / 256)) ((v % 256) ∷ []),
  length-to_be_bytes w (v / 256),
)

digit_order :
    (i j : ℕ)
    → then_cmp (compare (i / 256) (j / 256)) (then_cmp (compare (i % 256) (j % 256)) eq)
      ≡ compare i j
digit_order i j = ground arith

-- The bytes of words of one width compare as the words.
pub cmp-to_be_bytes :
    (w i j : ℕ)
    → i < 256 ^ w
    → j < 256 ^ w
    → cmp_bytes (to_be_bytes w i) (to_be_bytes w j) ≡ compare i j
unfolding to_be_bytes cmp_bytes
cmp-to_be_bytes zero i j h k = ground arith
cmp-to_be_bytes (suc w) i j h k =
    rw
      (cmp_bytes-append (to_be_bytes w (i / 256)) (to_be_bytes w (j / 256)) ((i % 256) ∷ [])
        ((j % 256) ∷ []) (length-to_be_bytes w (i / 256) ∙ sym (length-to_be_bytes w (j / 256))))
      (rw
        (cmp-to_be_bytes w (i / 256) (j / 256) (omega (arith, pow-suc 256 w))
          (omega (arith, pow-suc 256 w)))
        (digit_order i j))

pub cmp-snoc : (a : List ℕ) (b : ℕ) → cmp_bytes a (a ++ (b ∷ [])) ≡ lt
unfolding cmp_bytes
cmp-snoc [] b = refl
cmp-snoc (x ∷ a) b = ground (arith, cmp-snoc a b)

-- Nothing lies between a key and the one that is longer by a last 0.
pub before_snoc :
    (k hi : List ℕ) (b : ℕ) → lt_bytes hi k ≡ false → lt_bytes k (hi ++ (b ∷ [])) ≡ true
before_snoc k hi b h =
    ground (arith, cmp-snoc hi b, bytes_trans k hi (hi ++ (b ∷ [])), bytes_eq hi k, bytes_lt hi k)

as_bytes_eq : (l m : MetaLabel) → as_bytes l ≡ as_bytes m → l ≡ m
as_bytes_eq vote vote h = refl
as_bytes_eq vote committed h = cc
as_bytes_eq vote last_purged h = cc
as_bytes_eq committed vote h = cc
as_bytes_eq committed committed h = refl
as_bytes_eq committed last_purged h = cc
as_bytes_eq last_purged vote h = cc
as_bytes_eq last_purged committed h = cc
as_bytes_eq last_purged last_purged h = refl

zeros_eq : to_be_bytes 8 0 ≡ zeros
unfolding to_be_bytes
zeros_eq = refl

ones_eq : to_be_bytes 8 (2 ^ 64 - 1) ≡ ones
unfolding to_be_bytes
ones_eq = refl

-- The bytes of an index lie between `zeros` and `ones`.
pub index_range :
    (i : ℕ)
    → i < 2 ^ 64
    → (lt_bytes (to_be_bytes 8 i) zeros ≡ false) × (lt_bytes ones (to_be_bytes 8 i) ≡ false)
index_range i h = (
  rw (← zeros_eq) (ground (arith, cmp-to_be_bytes 8 i 0 h (omega arith))),
  rw (← ones_eq) (ground (arith, cmp-to_be_bytes 8 (2 ^ 64 - 1) i (omega arith) h)),
)

pub flat-IsKeySpace : IsKeySpace flat
flat-IsKeySpace = record {
  ordered = cmp-to_be_bytes 8;
  above_lo = λ i h. (index_range i h).0;
  below_hi = λ i h. (index_range i h).1;
  before_end = λ k h. before_snoc k ones 0 h;
  labels = as_bytes_eq;
}

prefix_cancel : (p x y : List ℕ) → cmp_bytes (p ++ x) (p ++ y) ≡ cmp_bytes x y
prefix_cancel p x y = rw (cmp_bytes-append p p x y refl) (rw (bytes_refl p) refl)

prefix_eq : (p x y : List ℕ) → p ++ x ≡ p ++ y → x ≡ y
prefix_eq p x y h =
    bytes_eq x y (sym (prefix_cancel p x y) ∙ ap (cmp_bytes (p ++ x)) (sym h) ∙ bytes_refl (p ++ x))

tail_eq : (x y : List ℕ) (c : ℕ) → c ∷ x ≡ c ∷ y → x ≡ y
tail_eq x y c h = cc

pub group_prefixed-IsKeySpace : (g : ℕ) → IsKeySpace (group_prefixed g)
group_prefixed-IsKeySpace g =
    let p = to_be_bytes 8 g in
    record {
      ordered = λ i j h k.
          prefix_cancel p (to_be_bytes 8 i) (to_be_bytes 8 j) ∙ cmp-to_be_bytes 8 i j h k;
      above_lo = λ i h. ap is_lt (prefix_cancel p (to_be_bytes 8 i) zeros) ∙ (index_range i h).0;
      below_hi = λ i h. ap is_lt (prefix_cancel p ones (to_be_bytes 8 i)) ∙ (index_range i h).1;
      before_end = λ k h. before_snoc k (p ++ ones) 0 h;
      labels =
          λ l m h. as_bytes_eq l m (tail_eq (as_bytes l) (as_bytes m) b'/' (prefix_eq p _ _ h));
    }
