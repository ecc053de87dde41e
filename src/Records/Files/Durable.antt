-- ===== src/Records/Files/Durable.antt =====
-- Whatever happens to the driver, its files stay such that a restart opens on them.
use tsoracle.Prelude.{
  ℕ, ◌^◌, ◌<◌, ◌≤◌, ◌≡◌, inl, true, false, refl, List, [], ◌∷◌, length, Result, ok, err, some, All,
  arith,
}
use tsoracle.BTreeMap.{bytes_ord, insert, len, insert-Sorted, len-insert}
use tsoracle.Timestamp.{physical_ms_max}
use tsoracle.Lease.{LeaseRecord}
use tsoracle.Seq.{SeqKey}
use tsoracle.Consensus.{ConsensusError, reject_out_of_range_advance}
use tsoracle.FileDriver.{
  Counters, DenseState, FileDriver, WriteOutcome, written, failed_before_rename,
  failed_after_rename, reopen, persist_high_water, next_block, store_dense, store_block,
  advance_dense, persist_leases,
}
use tsoracle.Records.HighWater
use tsoracle.Records.Utf8.{is_utf8}
use tsoracle.Records.Dense
use tsoracle.Records.Dense.RoundTrip as DenseTrip
use tsoracle.Records.Dense.RoundTrip.{IsWritable}
use tsoracle.Records.Leases
use tsoracle.Records.Leases.RoundTrip.{Ascends, Fits}
use tsoracle.Records.Files.{Directory, open_or_init}
use tsoracle.Records.Files.Reopen.{IsDurable, open-reopen}

-- Counters that fit the dense record, no more of them than the cap.
pub record IsCounted (s : DenseState) : Type 0 where
  pub writable : IsWritable s.map s.cap
  pub within : len s.map ≤ s.cap
  pub small : s.cap < 2 ^ 32

-- Leases that fit the lease record, in the order in which it holds them.
pub record AreLeases (rs : List LeaseRecord) : Type 0 where
  pub by_id : Ascends rs
  pub fit : All Fits rs
  pub few : length rs < 2 ^ 32

pub record IsSound (d : FileDriver) : Type 0 where
  pub state : d.state ≤ physical_ms_max
  pub state_file : d.state_file ≤ physical_ms_max
  pub dense : IsCounted d.dense
  pub dense_file : IsCounted d.dense_file
  pub leases : AreLeases d.leases
  pub leases_file : AreLeases d.leases_file

-- What happens to the driver: a call, with how its write ends, or a restart on the files.
pub data Op : Type 0 where
  persist : (w : WriteOutcome) (at_least : ℕ) → Op
  advance : (w : WriteOutcome) (key : SeqKey) (count : ℕ) → Op
  keep : (w : WriteOutcome) (live : List LeaseRecord) → Op
  restart : Op

-- Keys are text of under 2^16 bytes, and lease sets are in order and fit their file.
abbrev pub Sends : Op → Type 0
Sends (persist w n) = Unit
Sends (advance w key count) = (is_utf8 key.bytes ≡ true) × (length key.bytes < 2 ^ 16)
Sends (keep w live) = AreLeases live
Sends restart = Unit

unfoldable pub step : Op → FileDriver → FileDriver
step (persist w n) d = (persist_high_water w n d).1
step (advance w key count) d = (advance_dense w key count d).1
step (keep w live) d = (persist_leases w live d).1
step restart d = reopen d

unfoldable pub run : List Op → FileDriver → FileDriver
run [] d = d
run (op ∷ ops) d = run ops (step op d)

insert-Fits :
    (key : List ℕ) (n : ℕ) (m : Counters)
    → DenseTrip.Fits (key, n)
    → All DenseTrip.Fits m
    → All DenseTrip.Fits (insert key n m)
unfolding insert
insert-Fits key n [] f fs = (f, tt)
insert-Fits key n ((j, w) ∷ m) f (g, fs) = ground (arith, insert-Fits key n m f fs)

next-IsCounted :
    (key : SeqKey) (count start next : ℕ) (s : DenseState)
    → is_utf8 key.bytes ≡ true
    → length key.bytes < 2 ^ 16
    → IsCounted s
    → next_block key count s ≡ ok (start, next)
    → IsCounted (record { map = insert key.bytes next s.map; cap = s.cap })
unfolding next_block
next-IsCounted key count start next s u short c e =
    let room : len (insert key.bytes next s.map) ≤ s.cap =
      ground (arith, len-insert key.bytes next s.map c.writable.keys_ordered, c.within) in
    record {
      writable = record {
        keys_ordered = insert-Sorted key.bytes next s.map c.writable.keys_ordered;
        entries_fit =
            insert-Fits key.bytes next s.map (u, short, ground arith) c.writable.entries_fit;
        counted = omega (arith, room, c.small);
        cap_fits = c.writable.cap_fits;
      };
      within = room;
      small = c.small;
    }

store-IsSound :
    (w : WriteOutcome) (key : SeqKey) (r : Result ConsensusError (ℕ × ℕ)) (d : FileDriver)
    → IsSound d
    → ((start next : ℕ)
        → r ≡ ok (start, next)
        → IsCounted (record { map = insert key.bytes next d.dense.map; cap = d.dense.cap }))
    → IsSound (store_block w key r d).1
unfolding store_dense
store-IsSound w key (err e) d s h = s
store-IsSound written key (ok (start, next)) d s h = record {
  state = s.state;
  state_file = s.state_file;
  dense = h start next refl;
  dense_file = h start next refl;
  leases = s.leases;
  leases_file = s.leases_file;
}
store-IsSound failed_before_rename key (ok (start, next)) d s h = s
store-IsSound failed_after_rename key (ok (start, next)) d s h = record {
  state = s.state;
  state_file = s.state_file;
  dense = s.dense;
  dense_file = h start next refl;
  leases = s.leases;
  leases_file = s.leases_file;
}

keep-IsSound :
    (w : WriteOutcome) (live : List LeaseRecord) (d : FileDriver)
    → AreLeases live
    → IsSound d
    → IsSound (persist_leases w live d).1
unfolding persist_leases
keep-IsSound written live d a s = record {
  state = s.state;
  state_file = s.state_file;
  dense = s.dense;
  dense_file = s.dense_file;
  leases = a;
  leases_file = a;
}
keep-IsSound failed_before_rename live d a s = s
keep-IsSound failed_after_rename live d a s = record {
  state = s.state;
  state_file = s.state_file;
  dense = s.dense;
  dense_file = s.dense_file;
  leases = s.leases;
  leases_file = a;
}

persist-IsSound :
    (w : WriteOutcome) (n : ℕ) (d : FileDriver) → IsSound d → IsSound (persist_high_water w n d).1
unfolding persist_high_water reject_out_of_range_advance
persist-IsSound written n d s = ground (arith, s.state, s.state_file)
persist-IsSound failed_before_rename n d s = ground (arith, s.state, s.state_file)
persist-IsSound failed_after_rename n d s = ground (arith, s.state, s.state_file)

step-IsSound : (op : Op) (d : FileDriver) → Sends op → IsSound d → IsSound (step op d)
unfolding step
step-IsSound (persist w n) d h s = persist-IsSound w n d s
step-IsSound (advance w key count) d h s =
    unfold advance_dense in
    store-IsSound w key (next_block key count d.dense) d s
      (λ start next e. next-IsCounted key count start next d.dense h.0 h.1 s.dense e)
step-IsSound (keep w live) d h s = keep-IsSound w live d h s
step-IsSound restart d h s =
    unfold reopen in
    record {
      state = s.state_file;
      state_file = s.state_file;
      dense = s.dense_file;
      dense_file = s.dense_file;
      leases = s.leases_file;
      leases_file = s.leases_file;
    }

run-IsSound : (ops : List Op) (d : FileDriver) → All Sends ops → IsSound d → IsSound (run ops d)
unfolding run
run-IsSound [] d h s = s
run-IsSound (op ∷ ops) d (h, hs) s = run-IsSound ops (step op d) hs (step-IsSound op d h s)

IsSound-IsDurable : (d : FileDriver) → IsSound d → IsDurable d
IsSound-IsDurable d s = record {
  in_range = s.state_file;
  counters = s.dense_file.writable;
  by_id = s.leases_file.by_id;
  leases_fit = s.leases_file.fit;
  few_leases = s.leases_file.few;
}

module _ (crc32c : List ℕ → ℕ) where
  -- The bytes of the files.
  unfoldable pub directory_of : FileDriver → Directory
  unfolding HighWater.encode Dense.encode Leases.encode
  directory_of d = record {
    state = some (HighWater.encode crc32c d.state_file);
    dense = some (Dense.encode crc32c d.dense_file.map d.dense_file.cap);
    leases = some (Leases.encode crc32c d.leases_file);
  }

module _ (crc32c : List ℕ → ℕ) (crc_word : (bs : List ℕ) → crc32c bs < 2 ^ 32) where
  -- A driver whose memory and files fit the formats, with a cap under 2^32, lives through
  -- high-water persists, block advances, lease persists and restarts, where each write goes
  -- through, fails before its file is replaced, or fails after. Keys are UTF-8 of under 2^16
  -- bytes, and lease sets are in order, with fields that fit. At the end, opening the directory
  -- on the bytes of its three files succeeds, with the state that `reopen` stands for: no
  -- sequence of failed writes leaves files that do not open.
  pub run-opens :
      (ops : List Op) (d : FileDriver)
      → All Sends ops
      → IsSound d
      → open_or_init crc32c false false (directory_of crc32c (run ops d)) ≡ ok (reopen (run ops d))
  unfolding directory_of
  run-opens ops d h s =
      open-reopen crc32c crc_word false _ (run ops d)
        (IsSound-IsDurable (run ops d) (run-IsSound ops d h s))
        (record { state = inl refl; dense = inl refl; leases = inl refl }) refl
