-- ===== src/Records/Tests.antt =====
-- Files on concrete contents, with a sum of the bytes for the checksum.
use tsoracle.Prelude.{ℕ, ◌+◌, ◌%◌, ◌^◌, ◌<◌, ◌≡◌, ◌↔◌, refl, true, false, List, [], ◌∷◌, ok, arith}
use tsoracle.BTreeMap.{cmp_bytes, bytes_ord}
use tsoracle.Lease.{LeaseRecord}
use tsoracle.FileDriver.{
  Counters, FileDriver, written, failed_before_rename, failed_after_rename, reopen,
}
use tsoracle.Records.Bytes.{from_le_bytes, split_at, read_le}
use tsoracle.Records.Utf8.{is_utf8}
use tsoracle.Records.HighWater
use tsoracle.Records.HighWater.RoundTrip.{decode_iff}
use tsoracle.Records.Dense
use tsoracle.Records.Dense.RoundTrip.{IsWritable, decode-encode_dense}
use tsoracle.Records.Leases
use tsoracle.Records.Leases.{sort_by_id}
use tsoracle.Records.Leases.RoundTrip.{Ascends, decode-encode_leases}
use tsoracle.Records.Files.{open_or_init}
use tsoracle.Records.Files.Durable.{
  Op, persist, advance, keep, restart, IsSound, IsCounted, AreLeases, run, directory_of, run-opens,
}

abbrev checksum : List ℕ → ℕ
checksum [] = 0
checksum (b ∷ bs) = (b + checksum bs) % 2 ^ 32

checksum_word : (bs : List ℕ) → checksum bs < 2 ^ 32
checksum_word [] = omega arith
checksum_word (b ∷ bs) = omega arith

-- The record of the high-water 7.
abbrev seven : List ℕ
seven = 84 ∷ 83 ∷ 79 ∷ 82 ∷ 1 ∷ 7 ∷ 0 ∷ 0 ∷ 0 ∷ 0 ∷ 0 ∷ 0 ∷ 0 ∷ 80 ∷ 1 ∷ 0 ∷ 0 ∷ []

decode_seven : HighWater.decode checksum seven ≡ ok 7
unfolding HighWater.decode split_at read_le from_le_bytes cmp_bytes
decode_seven = refl

decode_iff_example :
    (HighWater.decode checksum seven ≡ ok 7) ↔ (seven ≡ HighWater.encode checksum 7)
decode_iff_example = decode_iff checksum checksum_word seven 7 (omega arith) (omega arith)

-- Two counters, one of whose names is not ASCII.
abbrev two_counters : Counters
two_counters = ((97 ∷ []), 5) ∷ ((0xc3 ∷ 0xa9 ∷ []), 9) ∷ []

two_counters-IsWritable : IsWritable two_counters 10
unfolding is_utf8 cmp_bytes
two_counters-IsWritable = record {
  keys_ordered = (refl, tt);
  entries_fit = ((refl, omega arith, omega arith), ((refl, omega arith, omega arith), tt));
  counted = omega arith;
  cap_fits = omega arith;
}

decode-encode_dense_example :
    Dense.decode checksum (Dense.encode checksum two_counters 10) ≡ ok (two_counters, 10)
decode-encode_dense_example =
    decode-encode_dense checksum checksum_word two_counters 10 two_counters-IsWritable

abbrev lease : ℕ → LeaseRecord
lease id = record {
  lease_id = id;
  holder = 104 ∷ [];
  holder_epoch = 1;
  ttl_ms = 5000;
  ts_upper_bound = id;
  expires_at_ms = 9000;
  superseded = false;
}

decode-encode_leases_example :
    (Leases.decode checksum (Leases.encode checksum (lease 8 ∷ lease 3 ∷ []))
      ≡ ok (sort_by_id (lease 8 ∷ lease 3 ∷ [])))
    × Ascends (sort_by_id (lease 8 ∷ lease 3 ∷ []))
decode-encode_leases_example =
    decode-encode_leases checksum checksum_word (lease 8 ∷ lease 3 ∷ [])
      ((λ e. absurd (omega arith), tt), (tt, tt)) (omega arith) (omega arith)

abbrev driver : FileDriver
driver = record {
  state = 3;
  dense = record { map = two_counters; cap = 10 };
  leases = [];
  state_file = 3;
  dense_file = record { map = two_counters; cap = 10 };
  leases_file = [];
}

no_leases : AreLeases []
no_leases = record { by_id = tt; fit = tt; few = omega arith }

counted : IsCounted (record { map = two_counters; cap = 10 })
counted = record { writable = two_counters-IsWritable; within = omega arith; small = omega arith }

driver-IsSound : IsSound driver
driver-IsSound = record {
  state = omega arith;
  state_file = omega arith;
  dense = counted;
  dense_file = counted;
  leases = no_leases;
  leases_file = no_leases;
}

abbrev ops : List Op
ops =
    persist written 12
    ∷ advance failed_after_rename (record { bytes = 98 ∷ [] }) 4
    ∷ keep failed_before_rename (lease 3 ∷ lease 8 ∷ [])
    ∷ restart
    ∷ keep written (lease 3 ∷ lease 8 ∷ [])
    ∷ []

two_leases : AreLeases (lease 3 ∷ lease 8 ∷ [])
two_leases = record { by_id = omega arith; fit = omega arith; few = omega arith }

utf8_b : is_utf8 (98 ∷ []) ≡ true
unfolding is_utf8
utf8_b = refl

run-opens_example :
    open_or_init checksum false false (directory_of checksum (run ops driver))
    ≡ ok (reopen (run ops driver))
run-opens_example =
    run-opens checksum checksum_word ops driver
      (tt, ((utf8_b, omega arith), (two_leases, (tt, (two_leases, tt))))) driver-IsSound
