-- ===== src/Lease/Tests.antt =====
-- The lease table's theorems at concrete tables.
use tsoracle.Prelude.{ℕ, ◌≡◌, refl, false, none, some, List, [], ◌∷◌, ok, arith}
use tsoracle.BTreeMap.{nat_ord, bytes_ord, same_refl, get}
use tsoracle.Lease.{
  LeaseRecord, LeaseTable, grant, prepare_acquire, commit_acquire, prepare_renew, commit_renew,
  live_set, projected_live_set, active_for,
}
use tsoracle.Lease.Acquire.{Active, IsTable, acquire-IsTable}
use tsoracle.Lease.Table.{live_set-acquire}
use tsoracle.Lease.Renew.{renew-IsTable}

abbrev lease_of : ℕ → List ℕ → ℕ → LeaseRecord
lease_of id h e = record {
  lease_id = id;
  holder = h;
  holder_epoch = e;
  ttl_ms = 5000;
  ts_upper_bound = id;
  expires_at_ms = 6000;
  superseded = false;
}

-- One lease, of the holder group `1`.
abbrev table : LeaseTable
table = (10, lease_of 10 (1 ∷ []) 3) ∷ []

keyed_10 : (i : ℕ) (r : LeaseRecord) → get i table ≡ some r → r.lease_id ≡ i
unfolding get
keyed_10 i r e = ground arith

exclusive_10 :
    (i j : ℕ) (r s : LeaseRecord)
    → Active table 1000 i r
    → Active table 1000 j s
    → r.holder ≡ s.holder
    → i ≡ j
unfolding get
exclusive_10 i j r s a b m = ground arith

table_ok : IsTable table 1000
table_ok = record { sorted = tt; keyed = keyed_10; exclusive = exclusive_10 }

taken_over : prepare_acquire table (1 ∷ []) 4 1000 ≡ ok (grant (some 10))
unfolding prepare_acquire active_for
taken_over = ground (arith, same_refl {K = List ℕ} (1 ∷ []))

acquire-IsTable_example :
    IsTable (commit_acquire table (lease_of 20 (1 ∷ []) 4) (some 10) 1000) 1000
acquire-IsTable_example =
    acquire-IsTable table (1 ∷ []) 4 1000 (some 10) (lease_of 20 (1 ∷ []) 4) table_ok taken_over
      refl

live_set-acquire_example :
    live_set (commit_acquire table (lease_of 20 (1 ∷ []) 4) (some 10) 1000) 1000
    ≡ projected_live_set table (some (lease_of 20 (1 ∷ []) 4)) (some 10) none 1000
live_set-acquire_example =
    live_set-acquire table (lease_of 20 (1 ∷ []) 4) (some 10) 1000 table_ok.sorted refl

renewable_10 : prepare_renew table 10 1000 ≡ ok (lease_of 10 (1 ∷ []) 3)
unfolding prepare_renew get
renewable_10 = refl

renew-IsTable_example :
    IsTable
      (commit_renew table
        (record (lease_of 10 (1 ∷ []) 3) { ts_upper_bound = 40; expires_at_ms = 7000 })
        1000)
      1000
renew-IsTable_example =
    renew-IsTable table 10 1000 40 7000 (lease_of 10 (1 ∷ []) 3) table_ok renewable_10
