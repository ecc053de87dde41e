-- ===== src/Records/Dense/RoundTrip.antt =====
-- The dense record is read back as the map and the cap that were written.
use Prim.Native.Nat.Ordering.{lt, gt}
use mathlib.Core.List.{append-nil, append_assoc}
use tsoracle.Prelude.{
  ℕ, suc, ◌+◌, ◌^◌, ◌<◌, ◌≡◌, true, false, ltb, refl, ap, ◌∙◌, Option, none, some, List, [], ◌∷◌,
  ◌++◌, length, length-append, ok, All, arith,
}
use tsoracle.BTreeMap.{
  bytes_ord, cmp_bytes, insert, len, Above, Sorted, bytes_trans, bytes_refl, bytes_eq,
}
use tsoracle.FileDriver.{Counters}
use tsoracle.Records.Bytes.{to_le_bytes, length-to_le_bytes, read-to_le_bytes, split_at-append}
use tsoracle.Records.Utf8.{is_utf8}
use tsoracle.Records.Framed.RoundTrip as Frame
use tsoracle.Records.Dense.{encode, decode, encode_entries, decode_entries, not_above, version}

-- What the widths of the file hold: a key is text of at most 2^16 - 1 bytes, a counter a word.
abbrev pub Fits : List ℕ × ℕ → Type 0
Fits (key, counter) = (is_utf8 key ≡ true) × (length key < 2 ^ 16) × (counter < 2 ^ 64)

-- Every key of the map is below `k`.
abbrev Below : List ℕ → Counters → Type 0
Below k m = All (λ (e : List ℕ × ℕ). cmp_bytes e.0 k ≡ lt) m

insert-Below : (k : List ℕ) (v : ℕ) (m : Counters) → Below k m → insert k v m ≡ m ++ ((k, v) ∷ [])
unfolding insert
insert-Below k v [] b = refl
insert-Below k v ((j, w) ∷ m) (b, bs) =
    ground
      (arith, bytes_trans j k j b, bytes_refl j, bytes_refl k, bytes_eq k j, insert-Below k v m bs)

Below-trans : (j k : List ℕ) (m : Counters) → cmp_bytes j k ≡ lt → Below j m → Below k m
Below-trans j k [] h b = tt
Below-trans j k ((i, w) ∷ m) h (b, bs) = (bytes_trans i j k b h, Below-trans j k m h bs)

Below-snoc :
    (j k : List ℕ) (v : ℕ) (m : Counters)
    → cmp_bytes j k ≡ lt
    → Below j m
    → Below k (m ++ ((j, v) ∷ []))
Below-snoc j k v [] h b = (h, tt)
Below-snoc j k v ((i, w) ∷ m) h (b, bs) = (bytes_trans i j k b h, Below-snoc j k v m h bs)

-- The keys ascend from above the previous one, if there is one.
abbrev AboveLast : Option (List ℕ) → Counters → Type 0
AboveLast none m = Sorted m
AboveLast (some k) m = Above k m

abbrev BelowFirst : Counters → Counters → Type 0
BelowFirst acc [] = Unit
BelowFirst acc ((k, v) ∷ m) = Below k acc

bytes_gt : (j k : List ℕ) → cmp_bytes j k ≡ lt → cmp_bytes k j ≡ gt
bytes_gt j k h = ground (arith, bytes_trans j k j h, bytes_refl j, bytes_refl k, bytes_eq k j)

not_above-lem :
    (prev : Option (List ℕ)) (key : List ℕ) (counter : ℕ) (rest : Counters)
    → AboveLast prev ((key, counter) ∷ rest)
    → not_above prev key ≡ false
not_above-lem none key counter rest above = refl
not_above-lem (some k) key counter rest above = ground (arith, bytes_gt k key above.0)

one_entry :
    (key : List ℕ) (counter n : ℕ) (prev : Option (List ℕ)) (acc rest : Counters) (tail : List ℕ)
    → Fits (key, counter)
    → AboveLast prev ((key, counter) ∷ rest)
    → decode_entries
        (suc n)
        prev
        acc
        (to_le_bytes 2 (length key) ++ (key ++ (to_le_bytes 8 counter ++ tail)))
      ≡ decode_entries n (some key) (insert key counter acc) tail
unfolding decode_entries
one_entry key counter n prev acc rest tail (u, short, word) above =
    let wide : length (key ++ (to_le_bytes 8 counter ++ tail)) ≡ length key + 8 + length tail =
      omega (
        arith,
        length-append {0} key (to_le_bytes 8 counter ++ tail),
        length-append {0} (to_le_bytes 8 counter) tail,
        length-to_le_bytes 8 counter,
      ) in
    let enough : ltb (length (key ++ (to_le_bytes 8 counter ++ tail))) (length key + 8) ≡ false =
      ground (arith, wide) in
    rw (read-to_le_bytes 2 (length key) (key ++ (to_le_bytes 8 counter ++ tail)) short) (
      rw
        (
          enough,
          split_at-append (length key) key (to_le_bytes 8 counter ++ tail) refl,
          u,
          read-to_le_bytes 8 counter tail word,
        )
        (rw (not_above-lem prev key counter rest above) refl))

BelowFirst-insert :
    (k : List ℕ) (v : ℕ) (acc m : Counters)
    → Below k acc
    → Above k m
    → BelowFirst (insert k v acc) m
BelowFirst-insert k v acc [] b a = tt
BelowFirst-insert k v acc ((j, w) ∷ m) b a =
    rw (insert-Below k v acc b) (Below-snoc k j v acc a.0 b)

-- The rounds add the entries to those before them, and stop at what follows.
dense_rounds :
    (m : Counters) (prev : Option (List ℕ)) (acc : Counters)
    → All Fits m
    → AboveLast prev m
    → BelowFirst acc m
    → decode_entries (length m) prev acc (encode_entries m) ≡ ok (acc ++ m, [])
unfolding encode_entries
dense_rounds [] prev acc f above below = unfold decode_entries in rw append-nil refl
dense_rounds ((k, v) ∷ m) prev acc (f, fs) above below =
    one_entry k v (length m) prev acc m (encode_entries m) f above
    ∙ dense_rounds m (some k) (insert k v acc) fs (above_rest prev above)
        (BelowFirst-insert k v acc m below (above_rest prev above))
    ∙ ap (λ l. ok (l, []))
        (ap (λ l. l ++ m) (insert-Below k v acc below) ∙ append_assoc acc ((k, v) ∷ []) m)
  where
    above_rest : (p : Option (List ℕ)) → AboveLast p ((k, v) ∷ m) → Above k m
    above_rest none a = a
    above_rest (some j) a = a.1

empty_first : (m : Counters) → BelowFirst [] m
empty_first [] = tt
empty_first ((k, v) ∷ m) = tt

-- What the record of a driver holds: keys in order that are text of under 2^16 bytes, fewer than
-- 2^32 of them, and counters and a cap of 64 bits.
pub record IsWritable (map : Counters) (cap : ℕ) : Type 0 where
  pub keys_ordered : Sorted map
  pub entries_fit : All Fits map
  pub counted : len map < 2 ^ 32
  pub cap_fits : cap < 2 ^ 64

module _ (crc32c : List ℕ → ℕ) (crc_word : (bs : List ℕ) → crc32c bs < 2 ^ 32) where
  -- With keys in order that are UTF-8 of under 2^16 bytes, fewer than 2^32 of them, and with
  -- counters and a cap of 64 bits: the dense record that is written is read back as the same map
  -- and the same cap.
  pub decode-encode_dense :
      (map : Counters) (room : ℕ)
      → IsWritable map room
      → decode crc32c (encode crc32c map room) ≡ ok (map, room)
  unfolding decode encode
  decode-encode_dense map room w =
      let body = to_le_bytes 8 room ++ (to_le_bytes 4 (len map) ++ encode_entries map) in
      let wide : length body ≡ 12 + length (encode_entries map) = omega (
        arith,
        length-append {0} (to_le_bytes 8 room) (to_le_bytes 4 (len map) ++ encode_entries map),
        length-append {0} (to_le_bytes 4 (len map)) (encode_entries map),
        length-to_le_bytes 8 room,
        length-to_le_bytes 4 (len map),
      ) in
      ground (
        arith,
        Frame.decode-encode crc32c crc_word b'T' b'S' b'O' b'D' version 21 body
            (omega (arith, wide)),
        read-to_le_bytes 8 room (to_le_bytes 4 (len map) ++ encode_entries map) w.cap_fits,
        read-to_le_bytes 4 (len map) (encode_entries map) w.counted,
        dense_rounds map none [] w.entries_fit w.keys_ordered (empty_first map),
      )
