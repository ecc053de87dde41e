-- ===== src/Openraft/RoundTrip.antt =====
-- What a snapshot is read back as.
use mathlib.Core.Path.{subst}
use tsoracle.Openraft.Snapshot.{
  codec_io_error, encode_payload, decode_payload, encode_stored, decode_stored,
}
use tsoracle.Prelude.{
  ltb, map_err, ℕ, ◌≡◌, refl, true, false, ◌==◌, if◌then◌else◌, Option, Result, ok, err, ap, ◌>>◌,
  ◌>>=◌, fail_if, not, ◌||◌, List, [], ◌∷◌, arith,
}
use tsoracle.Openraft.Entries.{
  LeaseSet, min_readable_version, max_readable_version, baseline_write_version,
}
use tsoracle.Openraft.Counters.{Counters}
use tsoracle.Openraft.Apply.{Frame, SnapMeta}
use tsoracle.Openraft.Codec.{
  CodecError, Snapshot, PersistedSnapshot, Postcard, Codecs, is_lease_set, is_empty,
  encode_postcard, decode_postcard_exact, encode_framed, decode_framed, decode_version,
  encode_version, decode_envelope, encode_envelope, not_representable, lift_v4, lift_v5,
  with_checked_leases,
}

postcard_exact :
    {A B : Type 0} (p : Postcard B A) (a : A) (b : B)
    → encode_postcard p a ≡ ok b
    → decode_postcard_exact p b ≡ ok a
postcard_exact p a b h = ground (arith, p.round_trip a b)

empty_lem : {A : Type 0} (xs : List A) → is_empty xs ≡ true → xs ≡ []
empty_lem [] h = refl
empty_lem (x ∷ xs) h = cc

abbrev pub or_value {ℓ} : {E : Type 0} {A : Type ℓ} → A → Result E A → A
or_value a (ok b) = b
or_value a (err e) = a

pub map_err-ok :
    {E F A : Type 0} (g : E → F) (r : Result E A) (a : A) → map_err g r ≡ ok a → r ≡ ok a
map_err-ok g (ok b) a h = ap ok (ap (or_value a) h)
map_err-ok g (err e) a h = cc

-- What is framed at a version in range is read back by that version's reader.
framed :
    {A B : Type 0} (enc : ℕ → A → Result CodecError B) (dec : ℕ → B → Result CodecError A) (v : ℕ)
    (a back : A) (f : Frame B)
    → encode_framed enc v a ≡ ok f
    → ((b : B)
        → enc v a ≡ ok b
        → ((ltb v min_readable_version || ltb max_readable_version v) ≡ false)
          × (dec v b ≡ ok back))
    → (decode_framed dec min_readable_version max_readable_version f ≡ ok back) × (f.version ≡ v)
unfolding encode_framed decode_framed
framed {A = A} {B = B} enc dec v a back f h reads = go (enc v a) h reads
  where
    go :
        (r : Result CodecError B)
        → (r >>= λ body. ok (record { version = v; body = body })) ≡ ok f
        → ((b : B)
            → r ≡ ok b
            → ((ltb v min_readable_version || ltb max_readable_version v) ≡ false)
              × (dec v b ≡ ok back))
        → (decode_framed dec min_readable_version max_readable_version f ≡ ok back)
          × (f.version ≡ v)
    go (err x) k q = cc
    go (ok b) k q =
        let (range, reading) = q b refl in
        subst
          (λ g.
            (decode_framed dec min_readable_version max_readable_version g ≡ ok back)
            × (g.version ≡ v))
          (ap (or_value f) k) (rw range reading, refl)

module _ {L S B : Type 0} (c : Codecs L S B) where
  -- The cap is not in the first layout; it reads as 0, for which the reader keeps its own.
  abbrev pub as_stored : ℕ → Snapshot L S → Snapshot L S
  as_stored v p = if v == baseline_write_version then record p { dense_cap = 0 } else p

  read_v4 :
      (v cv room : ℕ) (la : Option L) (lm : S) (d : Counters) (ls : LeaseSet) (b : B)
      → (fail_if (not (is_empty d) || not (is_empty ls)) (not_representable v)
          >> encode_postcard c.v4
              (record { current_value = cv; last_applied = la; last_membership = lm }))
        ≡ ok b
      → (decode_postcard_exact c.v4 b >>= λ old. ok (lift_v4 c old))
        ≡ ok (record {
          current_value = cv;
          last_applied = la;
          last_membership = lm;
          dense = d;
          dense_cap = 0;
          leases = ls;
        })
  read_v4 v cv room la lm [] [] b e = rw (postcard_exact c.v4 _ b e) refl
  read_v4 v cv room la lm [] (l ∷ ls) b e = cc
  read_v4 v cv room la lm (x ∷ d) ls b e = cc

  read_v5 :
      (v cv room : ℕ) (la : Option L) (lm : S) (d : Counters) (ls : LeaseSet) (b : B)
      → (fail_if (not (is_empty ls)) (not_representable v)
          >> encode_postcard c.v5 (record {
            current_value = cv;
            last_applied = la;
            last_membership = lm;
            dense = d;
            dense_cap = room;
          }))
        ≡ ok b
      → (decode_postcard_exact c.v5 b >>= λ old. ok (lift_v5 c old))
        ≡ ok (record {
          current_value = cv;
          last_applied = la;
          last_membership = lm;
          dense = d;
          dense_cap = room;
          leases = ls;
        })
  read_v5 v cv room la lm d [] b e = rw (postcard_exact c.v5 _ b e) refl
  read_v5 v cv room la lm d (l ∷ ls) b e = cc

  read_v7 :
      (p : Snapshot L S) (b : B)
      → is_lease_set p.leases ≡ true
      → encode_postcard c.v7 p ≡ ok b
      → (decode_postcard_exact c.v7 b >>= with_checked_leases c) ≡ ok p
  read_v7 p b h e = rw (postcard_exact c.v7 p b e) (rw h refl)

  decode-encode_version :
      (v : ℕ) (p : Snapshot L S) (b : B)
      → is_lease_set p.leases ≡ true
      → encode_version c v p ≡ ok b
      → decode_version c v b ≡ ok (as_stored v p)
  unfolding encode_version decode_version
  decode-encode_version v p b h = ground (
    arith,
    read_v4 v p.current_value p.dense_cap p.last_applied p.last_membership p.dense p.leases b,
    read_v5 v p.current_value p.dense_cap p.last_applied p.last_membership p.dense p.leases b,
    read_v7 p b h,
  )

  encode_version-in_range :
      (v : ℕ) (p : Snapshot L S) (b : B)
      → encode_version c v p ≡ ok b
      → (ltb v min_readable_version || ltb max_readable_version v) ≡ false
  unfolding encode_version
  encode_version-in_range v p b h = ground arith

  -- A snapshot whose lease set is in order, written at any version that can hold it: it is read back
  -- as it was, except that the first layout forgets the cap; the frame starts with the version.
  pub decode-encode_payload :
      (v : ℕ) (p : Snapshot L S) (f : Frame B)
      → is_lease_set p.leases ≡ true
      → encode_payload c v p ≡ ok f
      → (decode_payload c f ≡ ok (as_stored v p)) × (f.version ≡ v)
  unfolding encode_payload decode_payload
  decode-encode_payload v p f h e =
      let (reading, version) =
        framed (encode_version c) (decode_version c) v p (as_stored v p) f
          (map_err-ok codec_io_error (encode_framed (encode_version c) v p) f e)
          (λ b q. (encode_version-in_range v p b q, decode-encode_version v p b h q)) in
      (ap (map_err codec_io_error) reading, version)

  decode-encode_envelope :
      (v : ℕ) (p : PersistedSnapshot L S B) (b : B)
      → encode_envelope c v p ≡ ok b
      → ((ltb v min_readable_version || ltb max_readable_version v) ≡ false)
        × (decode_envelope c v b ≡ ok p)
  unfolding encode_envelope decode_envelope
  decode-encode_envelope v p b h = ground (arith, postcard_exact c.envelope p b)

  pub decode-encode_stored :
      (v : ℕ) (meta : SnapMeta L S) (d f : Frame B)
      → encode_stored c v meta d ≡ ok f
      → (decode_stored c f ≡ ok (record { meta = meta; snapshot_data = d })) × (f.version ≡ v)
  unfolding encode_stored decode_stored
  decode-encode_stored v meta d f e =
      let p : PersistedSnapshot L S B = record { meta = meta; snapshot_data = d } in
      let (reading, version) =
        framed (encode_envelope c) (decode_envelope c) v p p f
          (map_err-ok codec_io_error (encode_framed (encode_envelope c) v p) f e)
          (λ b q. decode-encode_envelope v p b q) in
      (ap (map_err codec_io_error) reading, version)
