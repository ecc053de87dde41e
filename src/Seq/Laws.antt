-- ===== src/Seq/Laws.antt =====
-- The gate and the constructors of the dense sequences, on every branch.
use tsoracle.Prelude.{ℕ, ◌+◌, ◌≤◌, ◌<◌, ◌≡◌, List, [], Result, ok, err, length, u64_max, arith}
use tsoracle.Epoch.{Epoch}
use tsoracle.CoreError.{
  CoreError, seq_key_empty, seq_key_too_long, seq_count_zero, seq_count_too_large,
  seq_block_overflow,
}
use tsoracle.Seq.{
  SeqKey, SeqGrant, leader, not_leader, max_seq_key_len, validate_request, last, try_new_grant,
}

-- A key that the constructor accepts.
abbrev pub IsKey : SeqKey → Type 0
IsKey k = (0 < length k.bytes) × (length k.bytes ≤ max_seq_key_len)

-- What the gate may answer on a leader.
abbrev pub Admits : List ℕ → ℕ → ℕ → Result CoreError SeqKey → Type 0
Admits key count max_count (ok k) = (k.bytes ≡ key) × IsKey k × (0 < count) × (count ≤ max_count)
Admits key count max_count (err seq_count_zero) = count ≡ 0
Admits key count max_count (err (seq_count_too_large c m)) =
    (c ≡ count) × (m ≡ max_count) × (max_count < count)
Admits key count max_count (err seq_key_empty) = (key ≡ []) × (0 < count) × (count ≤ max_count)
Admits key count max_count (err (seq_key_too_long n m)) =
    (n ≡ length key)
    × (m ≡ max_seq_key_len)
    × (max_seq_key_len < n)
    × (0 < count)
    × (count ≤ max_count)
Admits key count max_count (err _) = ⊥

-- Off the leader every request is refused as such; on it a request passes exactly with a count in
-- `1..=max_count` and a key of 1 to 128 bytes, and the first fault in that order is reported.
pub validate_request_lem :
    (e : Epoch) (key : List ℕ) (count max_count : ℕ)
    → Admits key count max_count (validate_request (leader e) key count max_count)
      × (validate_request not_leader key count max_count ≡ err CoreError.not_leader)
unfolding validate_request
validate_request_lem e [] count max_count = ground arith
validate_request_lem e key count max_count = ground arith

abbrev pub Blocks : SeqKey → ℕ → ℕ → Epoch → Result CoreError SeqGrant → Type 0
Blocks key start count epoch (ok g) =
    (g ≡ record { key = key; start = start; count = count; epoch = epoch })
    × (0 < count)
    × (last g + 1 ≡ start + count)
    × (last g ≤ u64_max)
Blocks key start count epoch (err seq_count_zero) = count ≡ 0
Blocks key start count epoch (err (seq_block_overflow s c)) =
    (s ≡ start) × (c ≡ count) × (0 < count) × (u64_max + 1 < start + count)
Blocks key start count epoch (err _) = ⊥

-- A block is built exactly if it is not empty and its last ordinal fits 64 bits; then the last
-- ordinal is the one before `start + count`.
pub try_new_grant_lem :
    (key : SeqKey) (start count : ℕ) (e : Epoch)
    → Blocks key start count e (try_new_grant key start count e)
unfolding try_new_grant last
try_new_grant_lem key start count e = ground arith
