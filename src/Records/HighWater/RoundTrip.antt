-- ===== src/Records/HighWater/RoundTrip.antt =====
-- The high-water record is read back, and no other bytes are read as it.
use mathlib.Core.Path.{subst}
use mathlib.Core.List.{append-nil}
use tsoracle.Prelude.{
  ℕ, ◌+◌, ◌^◌, ◌≤◌, ◌<◌, ◌≡◌, ◌↔◌, refl, ap, ◌∙◌, List, [], ◌∷◌, ◌++◌, length, length-append, some,
  ok, Option-cases, inl, inr, All, arith,
}
use tsoracle.BTreeMap.{same_eq, bytes_ord, cmp_bytes}
use tsoracle.Records.Bytes.{
  IsByte, to_le_bytes, take, split_at, read_le, length-to_le_bytes, read-to_le_bytes, read_le-eq,
  split_at-eq, take-append,
}
use tsoracle.Records.HighWater.{magic, version, record_len, encode, decode}

module _ (crc32c : List ℕ → ℕ) (crc_word : (bs : List ℕ) → crc32c bs < 2 ^ 32) where
  read_last : (crc : ℕ) → crc < 2 ^ 32 → read_le 4 (to_le_bytes 4 crc) ≡ some (crc, [])
  read_last crc h = rw (append-nil (to_le_bytes 4 crc)) at (read-to_le_bytes 4 crc [] h)

  decode_parts :
      (n crc : ℕ)
      → n < 2 ^ 64
      → crc < 2 ^ 32
      → crc ≡ crc32c (magic ++ (version ∷ to_le_bytes 8 n))
      → decode crc32c (magic ++ (version ∷ (to_le_bytes 8 n ++ to_le_bytes 4 crc))) ≡ ok n
  unfolding decode split_at cmp_bytes
  decode_parts n crc h k e =
      rw
        (
          length-append (to_le_bytes 8 n) (to_le_bytes 4 crc),
          length-to_le_bytes 8 n,
          length-to_le_bytes 4 crc,
        )
        (rw (read-to_le_bytes 8 n (to_le_bytes 4 crc) h) (
          rw
            (
              read_last crc k,
              take-append 8 (to_le_bytes 8 n) (to_le_bytes 4 crc) (length-to_le_bytes 8 n),
              ← e,
            )
            (ground arith)))

  -- What is written for a high-water of 64 bits is read as it.
  pub decode-encode : (n : ℕ) → n < 2 ^ 64 → decode crc32c (encode crc32c n) ≡ ok n
  unfolding encode
  decode-encode n h = decode_parts n _ h (crc_word _) refl

  -- What the checks say of the parts of bytes that are read.
  abbrev Parts : List ℕ → ℕ → Type 0
  Parts bytes n =
      (r1 : List ℕ) × (r2 : List ℕ) × (r3 : List ℕ) × (r4 : List ℕ) × (split_at 4 bytes
        ≡ some (magic, r1))
      × (read_le 1 r1 ≡ some (version, r2))
      × (read_le 8 r2 ≡ some (n, r3))
      × (read_le 4 r3 ≡ some (crc32c (take 13 bytes), r4))
      × (length bytes ≤ record_len)

  read-Parts : (bytes : List ℕ) (n : ℕ) → decode crc32c bytes ≡ ok n → Parts bytes n
  unfolding decode
  read-Parts bytes n e = elim (Option-cases (split_at 4 bytes)) [
    | inl gone ↦ absurd (ground arith)
    | inr ((found, r1), s1) ↦ elim (Option-cases (read_le 1 r1)) [
      | inl gone ↦ absurd (ground arith)
      | inr ((v, r2), s2) ↦ elim (Option-cases (read_le 8 r2)) [
        | inl gone ↦ absurd (ground arith)
        | inr ((high_water, r3), s3) ↦ elim (Option-cases (read_le 4 r3)) [
          | inl gone ↦ absurd (ground arith)
          | inr ((crc, r4), s4) ↦ (
            r1,
            r2,
            r3,
            r4,
            ground (arith, same_eq found magic),
            ground arith,
            ground arith,
            ground arith,
            ground arith,
          )
        ]
      ]
    ]
  ]

  abbrev written : ℕ → ℕ → List ℕ → List ℕ
  written n crc rest = magic ++ (version ∷ (to_le_bytes 8 n ++ (to_le_bytes 4 crc ++ rest)))

  length-written : (n crc : ℕ) (rest : List ℕ) → length (written n crc rest) ≡ 17 + length rest
  length-written n crc rest = omega (
    arith,
    length-append {0} (to_le_bytes 8 n) (to_le_bytes 4 crc ++ rest),
    length-append {0} (to_le_bytes 4 crc) rest,
    length-to_le_bytes 8 n,
    length-to_le_bytes 4 crc,
  )

  assemble :
      (bytes rest : List ℕ) (n : ℕ)
      → bytes ≡ written n (crc32c (take 13 bytes)) rest
      → length bytes ≤ record_len
      → bytes ≡ encode crc32c n
  unfolding encode
  assemble bytes (b ∷ rest) n e h =
      absurd
        (omega (arith, ap (λ l. length l) e, length-written n (crc32c (take 13 bytes)) (b ∷ rest)))
  assemble bytes [] n e h =
      let head : take 13 bytes ≡ magic ++ (version ∷ to_le_bytes 8 n) =
        ap (take 13) e
        ∙ ap (λ l. magic ++ (version ∷ l))
            (take-append 8 (to_le_bytes 8 n) (to_le_bytes 4 (crc32c (take 13 bytes)) ++ [])
              (length-to_le_bytes 8 n)) in
      e
      ∙ rw append-nil
          (ap (λ l. magic ++ (version ∷ (to_le_bytes 8 n ++ to_le_bytes 4 (crc32c l)))) head)

  -- Bytes that are read as a high-water are the ones that are written for it.
  pub decode-exact :
      (bytes : List ℕ) (n : ℕ)
      → All IsByte bytes
      → decode crc32c bytes ≡ ok n
      → bytes ≡ encode crc32c n
  unfolding to_le_bytes
  decode-exact bytes n h e =
      let (r1, r2, r3, r4, s1, s2, s3, s4, short) = read-Parts bytes n e in
      let whole = (split_at-eq 4 bytes magic r1 s1).0 in
      let h1 = (subst (All IsByte) whole h).1.1.1.1 in
      let (e1, h2) = read_le-eq 1 version r1 r2 h1 s2 in
      let (e2, h3) = read_le-eq 8 n r2 r3 h2 s3 in
      let (e3, _) = read_le-eq 4 (crc32c (take 13 bytes)) r3 r4 h3 s4 in
      assemble bytes r4 n
        (whole
          ∙ ap (λ l. magic ++ l)
              (e1 ∙ ap (λ l. version ∷ l) (e2 ∙ ap (λ l. to_le_bytes 8 n ++ l) e3)))
        short

  -- For a high-water of 64 bits: bytes are read as it exactly when they are the 17 bytes that are
  -- written for it. Nothing that is cut short, longer, or changed is read as it.
  pub decode_iff :
      (bytes : List ℕ) (n : ℕ)
      → All IsByte bytes
      → n < 2 ^ 64
      → (decode crc32c bytes ≡ ok n) ↔ (bytes ≡ encode crc32c n)
  decode_iff bytes n h k =
      (λ e. decode-exact bytes n h e, λ e. ap (decode crc32c) e ∙ decode-encode n k)
