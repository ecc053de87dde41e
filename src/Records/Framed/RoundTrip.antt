-- ===== src/Records/Framed/RoundTrip.antt =====
-- A frame gives its payload back.
use tsoracle.Prelude.{
  ℕ, ◌+◌, ◌^◌, ◌≤◌, ◌<◌, ◌≡◌, refl, List, [], ◌∷◌, ◌++◌, length, length-append, ok, arith,
}
use tsoracle.BTreeMap.{bytes_ord, same_refl}
use tsoracle.Records.Bytes.{
  to_le_bytes, take, drop, length-to_le_bytes, from-to_le_bytes, take-append, drop-append,
}
use tsoracle.Records.Framed.{framed_body, encode, decode}

module _ (crc32c : List ℕ → ℕ) (crc_word : (bs : List ℕ) → crc32c bs < 2 ^ 32)
    (a b c d version : ℕ) where
  abbrev magic : List ℕ
  magic = a ∷ b ∷ c ∷ d ∷ []

  decode_parts :
      (minimum_len crc : ℕ) (payload : List ℕ)
      → minimum_len ≤ 9 + length payload
      → crc ≡ crc32c (framed_body crc32c magic version payload)
      → crc < 2 ^ 32
      → decode crc32c
          (framed_body crc32c magic version payload ++ to_le_bytes 4 crc)
          magic
          version
          minimum_len
        ≡ ok payload
  unfolding decode
  decode_parts minimum_len crc payload h e k =
      let wide : length (framed_body crc32c magic version payload ++ to_le_bytes 4 crc)
          ≡ 9 + length payload =
        omega (
          arith,
          length-append {0} (framed_body crc32c magic version payload) (to_le_bytes 4 crc),
          length-to_le_bytes 4 crc,
        ) in
      let front : take (length payload + 5)
            (framed_body crc32c magic version payload ++ to_le_bytes 4 crc)
          ≡ framed_body crc32c magic version payload =
        take-append (length payload + 5) (framed_body crc32c magic version payload)
          (to_le_bytes 4 crc) (omega arith) in
      let back : drop (length payload + 5)
            (framed_body crc32c magic version payload ++ to_le_bytes 4 crc)
          ≡ to_le_bytes 4 crc =
        drop-append (length payload + 5) (framed_body crc32c magic version payload)
          (to_le_bytes 4 crc) (omega arith) in
      ground (arith, same_refl magic, wide, front, back, from-to_le_bytes 4 crc k)

  pub decode-encode :
      (minimum_len : ℕ) (payload : List ℕ)
      → minimum_len ≤ 9 + length payload
      → decode crc32c (encode crc32c magic version payload) magic version minimum_len ≡ ok payload
  unfolding encode
  decode-encode minimum_len payload h = decode_parts minimum_len _ payload h refl (crc_word _)
