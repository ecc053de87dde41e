-- ===== src/Timestamp/Tests.antt =====
-- The packed words at concrete values.
use tsoracle.Prelude.{ℕ, ◌≡◌, refl, some}
use tsoracle.Timestamp.{Timestamp, pack_bits, pack, try_pack}
use tsoracle.Timestamp.Packing.{Packs, try_pack-Packs}

try_pack-Packs_example : Packs 5 262144 (try_pack 5 262144)
try_pack-Packs_example = try_pack-Packs 5 262144

abbrev at_bits : ℕ → Timestamp
at_bits n = record { bits = n }

packed_5_9 : pack 5 9 ≡ some (at_bits 1310729)
unfolding pack pack_bits
packed_5_9 = refl

packed_6_0 : pack 6 0 ≡ some (at_bits 1572864)
unfolding pack pack_bits
packed_6_0 = refl
