-- ===== src/Records/Bytes.antt =====
-- Slices of bytes, and words in little-endian order (`to_le_bytes`, `from_le_bytes`).
use mathlib.Core.Path.{subst}
use native.Mathlib.Nat.{pow-suc}
use tsoracle.Prelude.{
  ℕ, zero, suc, ◌+◌, ◌*◌, ◌/◌, ◌%◌, ◌^◌, ◌<◌, ◌≡◌, refl, ap, Option, none, some, List, [], ◌∷◌,
  ◌++◌, Option-cases, inl, inr, length, All, arith,
}

abbrev pub IsByte : ℕ → Type 0
IsByte b = b < 256

unfoldable pub to_le_bytes : ℕ → ℕ → List ℕ
to_le_bytes zero v = []
to_le_bytes (suc w) v = (v % 256) ∷ to_le_bytes w (v / 256)

unfoldable pub from_le_bytes : List ℕ → ℕ
from_le_bytes [] = 0
from_le_bytes (b ∷ bs) = b + 256 * from_le_bytes bs

module _ {ℓ} {A : Type ℓ} where
  abbrev pub take : ℕ → List A → List A
  take zero xs = []
  take (suc n) [] = []
  take (suc n) (x ∷ xs) = x ∷ take n xs

  abbrev pub drop : ℕ → List A → List A
  drop zero xs = xs
  drop (suc n) [] = []
  drop (suc n) (x ∷ xs) = drop n xs

  abbrev cons_first : A → Option (List A × List A) → Option (List A × List A)
  cons_first x none = none
  cons_first x (some (xs, rest)) = some (x ∷ xs, rest)

  -- `get(start..start + n)`, and what follows it
  unfoldable pub split_at : ℕ → List A → Option (List A × List A)
  split_at zero xs = some ([], xs)
  split_at (suc n) [] = none
  split_at (suc n) (x ∷ xs) = cons_first x (split_at n xs)

  pub take-append : (n : ℕ) (xs ys : List A) → length xs ≡ n → take n (xs ++ ys) ≡ xs
  take-append zero [] ys h = refl
  take-append zero (x ∷ xs) ys h = cc
  take-append (suc n) [] ys h = cc
  take-append (suc n) (x ∷ xs) ys h = ap (λ l. x ∷ l) (take-append n xs ys (omega arith))

  pub drop-append : (n : ℕ) (xs ys : List A) → length xs ≡ n → drop n (xs ++ ys) ≡ ys
  drop-append zero [] ys h = refl
  drop-append zero (x ∷ xs) ys h = cc
  drop-append (suc n) [] ys h = cc
  drop-append (suc n) (x ∷ xs) ys h = drop-append n xs ys (omega arith)

  pub split_at-append :
      (n : ℕ) (xs ys : List A) → length xs ≡ n → split_at n (xs ++ ys) ≡ some (xs, ys)
  unfolding split_at
  split_at-append zero [] ys h = refl
  split_at-append zero (x ∷ xs) ys h = cc
  split_at-append (suc n) [] ys h = cc
  split_at-append (suc n) (x ∷ xs) ys h = ap (cons_first x) (split_at-append n xs ys (omega arith))

  first_eq :
      (n : ℕ) (x : A) (xs front back : List A) (o : Option (List A × List A))
      → ((p q : List A) → o ≡ some (p, q) → (xs ≡ p ++ q) × (length p ≡ n))
      → cons_first x o ≡ some (front, back)
      → (x ∷ xs ≡ front ++ back) × (length front ≡ suc n)
  first_eq n x xs front back none h k = cc
  first_eq n x xs front back (some (p, q)) h k = ground (arith, h p q refl)

  pub split_at-eq :
      (n : ℕ) (xs front back : List A)
      → split_at n xs ≡ some (front, back)
      → (xs ≡ front ++ back) × (length front ≡ n)
  unfolding split_at
  split_at-eq zero xs front back h = ground arith
  split_at-eq (suc n) [] front back h = cc
  split_at-eq (suc n) (x ∷ xs) front back h =
      first_eq n x xs front back (split_at n xs) (split_at-eq n xs) h

pub length-to_le_bytes : (w v : ℕ) → length (to_le_bytes w v) ≡ w
unfolding to_le_bytes
length-to_le_bytes zero v = refl
length-to_le_bytes (suc w) v = ap suc (length-to_le_bytes w (v / 256))

pub from-to_le_bytes : (w v : ℕ) → v < 256 ^ w → from_le_bytes (to_le_bytes w v) ≡ v
unfolding to_le_bytes from_le_bytes
from-to_le_bytes zero v h = omega arith
from-to_le_bytes (suc w) v h =
    omega (arith, from-to_le_bytes w (v / 256) (omega (arith, pow-suc 256 w)))

pub to-from_le_bytes :
    (w : ℕ) (bs : List ℕ) → length bs ≡ w → All IsByte bs → to_le_bytes w (from_le_bytes bs) ≡ bs
unfolding to_le_bytes from_le_bytes
to-from_le_bytes zero [] h k = refl
to-from_le_bytes zero (b ∷ bs) h k = cc
to-from_le_bytes (suc w) [] h k = cc
to-from_le_bytes (suc w) (b ∷ bs) h (kb, ks) =
    let rest : (b + 256 * from_le_bytes bs) / 256 ≡ from_le_bytes bs = omega arith in
    let low : (b + 256 * from_le_bytes bs) % 256 ≡ b = omega arith in
    rw (rest, low) (ap (λ l. b ∷ l) (to-from_le_bytes w bs (omega arith) ks))

-- A word of `w` bytes at the front.
abbrev word_first : Option (List ℕ × List ℕ) → Option (ℕ × List ℕ)
word_first none = none
word_first (some (bs, rest)) = some (from_le_bytes bs, rest)

unfoldable pub read_le : ℕ → List ℕ → Option (ℕ × List ℕ)
unfolding split_at from_le_bytes
read_le w bs = word_first (split_at w bs)

pub read-to_le_bytes :
    (w v : ℕ) (rest : List ℕ) → v < 256 ^ w → read_le w (to_le_bytes w v ++ rest) ≡ some (v, rest)
unfolding read_le
read-to_le_bytes w v rest h =
    rw (split_at-append w (to_le_bytes w v) rest (length-to_le_bytes w v))
      (ap (λ n. some (n, rest)) (from-to_le_bytes w v h))

All-append {ℓ κ} :
    {A : Type ℓ} (P : A → Type κ) (xs ys : List A) → All P (xs ++ ys) → All P xs × All P ys
All-append P [] ys h = (tt, h)
All-append P (x ∷ xs) ys (h, hs) = ((h, (All-append P xs ys hs).0), (All-append P xs ys hs).1)

words_eq :
    {v n : ℕ} {bs rest : List ℕ}
    → ◌≡◌ {A = Option (ℕ × List ℕ)} (some (n, bs)) (some (v, rest))
    → (n ≡ v) × (bs ≡ rest)
words_eq h = ground arith

pub read_le-eq :
    (w v : ℕ) (bs rest : List ℕ)
    → All IsByte bs
    → read_le w bs ≡ some (v, rest)
    → (bs ≡ to_le_bytes w v ++ rest) × All IsByte rest
unfolding read_le
read_le-eq w v bs rest h e = elim (Option-cases (split_at w bs)) [
  | inl gone ↦ cc
  | inr ((front, back), there) ↦
      let (whole, wide) = split_at-eq w bs front back there in
      let (bytes, others) = All-append IsByte front back (subst (All IsByte) whole h) in
      let (value, same_rest) = words_eq (rw there at e) in
      (
        cc (to-from_le_bytes w front wide bytes, value, same_rest, whole),
        subst (All IsByte) same_rest others,
      )
]

-- One byte is a word of its own.
pub read_byte : (b : ℕ) (rest : List ℕ) → read_le 1 (b ∷ rest) ≡ some (b, rest)
unfolding read_le split_at from_le_bytes
read_byte b rest = ap (λ n. some (n, rest)) (omega arith)
