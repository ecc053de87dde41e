-- ===== src/Records/Validation.antt =====
-- validation.rs: what a stopped driver's state must satisfy to be opened for an export.
use tsoracle.Prelude.{
  ℕ, not, ◌||◌, ltb, ◌==◌, List, [], ◌∷◌, length, Result, ok, ◌>>◌, fail_if, is_ok,
}
use tsoracle.BTreeMap.{len}
use tsoracle.Timestamp.{physical_ms_max}
use tsoracle.Seq.{is_empty, try_new_key}
use tsoracle.Lease.{LeaseRecord, max_lease_holder_len}
use tsoracle.FileDriver.{Counters}

pub data StoredStateError : Type 0 where
  high_water_range : ℕ → StoredStateError
  dense_cardinality : (count room : ℕ) → StoredStateError
  dense_key : List ℕ → StoredStateError
  lease_bounds : (lease_id : ℕ) → StoredStateError
  lease_fields : (lease_id : ℕ) → StoredStateError

unfoldable pub check_keys : Counters → Result StoredStateError (Unit {0})
unfolding try_new_key
check_keys [] = ok tt
check_keys ((key, counter) ∷ dense) = do
  fail_if (not (is_ok (try_new_key key))) (dense_key key)
  check_keys dense

unfoldable pub check_leases : ℕ → List LeaseRecord → Result StoredStateError (Unit {0})
check_leases high_water [] = ok tt
check_leases high_water (l ∷ leases) = do
  fail_if (ltb l.ts_upper_bound l.lease_id || ltb high_water l.ts_upper_bound)
      (lease_bounds l.lease_id)
  fail_if (is_empty l.holder || ltb max_lease_holder_len (length l.holder) || l.ttl_ms == 0)
      (lease_fields l.lease_id)
  check_leases high_water leases

unfoldable pub validate : ℕ → Counters → ℕ → List LeaseRecord → Result StoredStateError (Unit {0})
unfolding check_keys check_leases
validate high_water dense room leases = do
  fail_if (ltb physical_ms_max high_water) (high_water_range high_water)
  fail_if (ltb room (len dense)) (dense_cardinality (len dense) room)
  check_keys dense
  check_leases high_water leases
