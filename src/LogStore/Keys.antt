-- ===== src/LogStore/Keys.antt =====
-- key_space.rs: how log indices and metadata labels become keys, and the two layouts.
pub mod Order
use tsoracle.Prelude.{
  ℕ, zero, suc, ◌/◌, ◌%◌, ◌^◌, ◌<◌, ◌≡◌, Bool, false, true, List, [], ◌∷◌, ◌++◌, refl, arith,
}
use tsoracle.BTreeMap.{bytes_ord, cmp_bytes}
use tsoracle.LogStore.Database.{lt_bytes}

pub data MetaLabel : Type 0 where
  vote committed last_purged : MetaLabel

abbrev pub as_bytes : MetaLabel → List ℕ
as_bytes vote = b'v' ∷ b'o' ∷ b't' ∷ b'e' ∷ []
as_bytes committed = b'c' ∷ b'o' ∷ b'm' ∷ b'm' ∷ b'i' ∷ b't' ∷ b't' ∷ b'e' ∷ b'd' ∷ []
as_bytes last_purged =
    b'l' ∷ b'a' ∷ b's' ∷ b't' ∷ b'_' ∷ b'p' ∷ b'u' ∷ b'r' ∷ b'g' ∷ b'e' ∷ b'd' ∷ []

-- `trait KeySpace`
pub record KeySpace : Type 0 where
  pub log_key : ℕ → List ℕ
  pub range_lo : List ℕ
  pub range_hi : List ℕ
  pub log_end_bound : List ℕ
  pub meta_key : MetaLabel → List ℕ

-- `to_be_bytes`, the lowest byte last
unfoldable pub to_be_bytes : ℕ → ℕ → List ℕ
to_be_bytes zero v = []
to_be_bytes (suc w) v = to_be_bytes w (v / 256) ++ ((v % 256) ∷ [])

abbrev pub zeros : List ℕ
zeros = 0 ∷ 0 ∷ 0 ∷ 0 ∷ 0 ∷ 0 ∷ 0 ∷ 0 ∷ []

abbrev pub ones : List ℕ
ones = 0xff ∷ 0xff ∷ 0xff ∷ 0xff ∷ 0xff ∷ 0xff ∷ 0xff ∷ 0xff ∷ []

-- `Flat`
abbrev pub flat : KeySpace
flat = record {
  log_key = λ index. to_be_bytes 8 index;
  range_lo = zeros;
  range_hi = ones;
  log_end_bound = ones ++ (0 ∷ []);
  meta_key = as_bytes;
}

-- `GroupPrefixed`
abbrev pub group_prefixed : ℕ → KeySpace
group_prefixed group_id = record {
  log_key = λ index. to_be_bytes 8 group_id ++ to_be_bytes 8 index;
  range_lo = to_be_bytes 8 group_id ++ zeros;
  range_hi = to_be_bytes 8 group_id ++ ones;
  log_end_bound = (to_be_bytes 8 group_id ++ ones) ++ (0 ∷ []);
  meta_key = λ label. to_be_bytes 8 group_id ++ (b'/' ∷ as_bytes label);
}
