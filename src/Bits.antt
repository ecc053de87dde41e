-- ===== src/Bits.antt =====
-- The bit operations of the packed words, as arithmetic: `|` of disjoint fields and `&` with a
-- mask of low ones. Both read the digit recursion that the native operations stand for.
use Prim.Native.Nat.{bit_and, bit_or, digits, bit_and-bitwise, bit_or-bitwise}
use native.Mathlib.Nat.{pow-suc, one-le-pow, div-add-mod, mod-lt}
use tsoracle.Prelude.{
  ℕ, zero, suc, ◌+◌, ◌*◌, ◌/◌, ◌%◌, ◌^◌, ◌≤◌, ◌<◌, min, max, ◌≡◌, refl, ap, ◌∙◌, arith,
}

or_digits : (n a k q r : ℕ) → a ≡ q * 2 ^ k → a ≤ n → r < 2 ^ k → digits (λ y. y) max n a r ≡ a + r
or_digits zero zero k q r e h fits = omega arith
or_digits zero (suc a) k q r e h fits = absurd (omega arith)
or_digits (suc n) zero k q r e h fits = omega arith
or_digits (suc n) (suc a) zero q r e h fits =
    omega (
      arith,
      or_digits n (suc a / 2) zero (q / 2) (r / 2) (omega arith) (omega arith) (omega arith),
    )
or_digits (suc n) (suc a) (suc k) q r e h fits =
    let double : suc a ≡ 2 * (q * 2 ^ k) = omega (arith, ap (λ (t : ℕ). q * t) (pow-suc 2 k)) in
    omega (
      arith,
      or_digits n (suc a / 2) k q (r / 2) (omega arith) (omega arith) (omega (arith, pow-suc 2 k)),
    )

-- `(q << k) | r`, where `r` fits `k` bits, is a sum.
pub bit_or_shifted : (k q r : ℕ) → r < 2 ^ k → bit_or (q * 2 ^ k) r ≡ q * 2 ^ k + r
bit_or_shifted k q r fits =
    bit_or-bitwise (q * 2 ^ k) r ∙ or_digits (q * 2 ^ k) (q * 2 ^ k) k q r refl (omega arith) fits

mod_double : (a p : ℕ) → 0 < p → a % (p * 2) ≡ (a / 2 % p) * 2 + a % 2
mod_double a p h = grind (arith, div-add-mod (a / 2) p, mod-lt (a / 2) h)

and_digits : (n a k m : ℕ) → m + 1 ≡ 2 ^ k → a ≤ n → digits (λ y. 0) min n a m ≡ a % 2 ^ k
and_digits zero zero k m e h = omega (arith, one-le-pow k 2)
and_digits zero (suc a) k m e h = absurd (omega arith)
and_digits (suc n) zero k m e h = omega (arith, one-le-pow k 2)
and_digits (suc n) (suc a) zero m e h =
    omega (arith, and_digits n (suc a / 2) zero (m / 2) (omega arith) (omega arith))
and_digits (suc n) (suc a) (suc k) m e h = omega (
  arith,
  pow-suc 2 k,
  mod_double (suc a) (2 ^ k) (omega (arith, one-le-pow k 2)),
  ap (λ (t : ℕ). suc a % t) (pow-suc 2 k),
  and_digits n (suc a / 2) k (m / 2) (omega (arith, pow-suc 2 k)) (omega arith),
)

-- `a & mask`, the mask of the `k` low bits, is a remainder.
pub bit_and_mask : (k m a : ℕ) → m + 1 ≡ 2 ^ k → bit_and a m ≡ a % 2 ^ k
bit_and_mask k m a e = bit_and-bitwise a m ∙ and_digits a a k m e (omega arith)
