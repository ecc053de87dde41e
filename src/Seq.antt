-- ===== src/Seq.antt =====
-- crates/tsoracle-core/src/seq.rs: keys, blocks and the leadership gate of the dense sequences.
-- A string is the list of its UTF-8 bytes. The gate's one field is its state.
mod Tests
pub mod Laws
use tsoracle.Prelude.{
  ℕ, ◌+◌, ◌-◌, ◌≤◌, Bool, true, false, Option, none, some, List, [], ◌∷◌, length, Result, ok, err,
  ltb, ◌==◌, not, if◌then◌else◌, ◌>>=◌, ◌>>◌, fail_if, ok_or, checked_add_u64,
}
use tsoracle.Epoch.{Epoch}
use tsoracle.CoreError.{
  CoreError, seq_key_empty, seq_key_too_long, seq_count_zero, seq_count_too_large,
  seq_block_overflow,
}

abbrev pub max_seq_key_len : ℕ
max_seq_key_len = 128

abbrev pub default_max_seq_batch_keys : ℕ
default_max_seq_batch_keys = 128

abbrev pub default_max_seq_count : ℕ
default_max_seq_count = 65_536

abbrev pub is_empty {ℓ} : {A : Type ℓ} → List A → Bool
is_empty [] = true
is_empty (x ∷ xs) = false

pub record SeqKey : Type 0 where
  pub bytes : List ℕ

-- `SeqKey::try_new`
unfoldable pub try_new_key : List ℕ → Result CoreError SeqKey
try_new_key s = do
  fail_if (is_empty s) seq_key_empty
  fail_if (ltb max_seq_key_len (length s)) (seq_key_too_long (length s) max_seq_key_len)
  ok (record { bytes = s })

pub record SeqGrant : Type 0 where
  pub key : SeqKey
  pub start : ℕ
  pub count : ℕ
  pub epoch : Epoch

-- `SeqGrant::try_new`
unfoldable pub try_new_grant : SeqKey → ℕ → ℕ → Epoch → Result CoreError SeqGrant
try_new_grant key start count epoch = do
  fail_if (count == 0) seq_count_zero
  _ ← ok_or (checked_add_u64 start (count - 1)) (seq_block_overflow start count)
  ok (record { key = key; start = start; count = count; epoch = epoch })

-- `SeqGrant::last`
unfoldable pub last : SeqGrant → ℕ
last g = g.start + (g.count - 1)

pub data SeqAllocator : Type 0 where
  not_leader : SeqAllocator
  leader : Epoch → SeqAllocator

-- `SeqAllocator::new`
abbrev pub new : SeqAllocator
new = not_leader

unfoldable pub become_leader : SeqAllocator → Epoch → SeqAllocator
become_leader a epoch = leader epoch

unfoldable pub step_down : SeqAllocator → SeqAllocator
step_down a = not_leader

unfoldable pub is_leader : SeqAllocator → Bool
is_leader (leader e) = true
is_leader not_leader = false

unfoldable pub epoch_of : SeqAllocator → Option Epoch
epoch_of (leader e) = some e
epoch_of not_leader = none

unfoldable pub validate_request : SeqAllocator → List ℕ → ℕ → ℕ → Result CoreError SeqKey
unfolding is_leader try_new_key
validate_request a key count max_count = do
  fail_if (not (is_leader a)) CoreError.not_leader
  fail_if (count == 0) seq_count_zero
  fail_if (ltb max_count count) (seq_count_too_large count max_count)
  try_new_key key
