-- ===== src/Epoch.antt =====
-- crates/tsoracle-core/src/epoch.rs: the leadership epoch, a `u128`, and its wire form of two
-- halves; crates/tsoracle-driver-paxos/src/type_config.rs: the epoch that a ballot is packed into.
-- A ballot, a type of the omnipaxos library, has a priority too, which the packing leaves out.
mod Tests
pub mod Wire
use Prim.Native.Nat.{bit_or}
use tsoracle.Prelude.{ℕ, ◌*◌, ◌/◌, ◌%◌, ◌^◌, Bool, ◌==◌, ltb}

-- `Epoch(pub u128)`
pub record Epoch : Type 0 where
  pub number : ℕ

abbrev pub epoch_zero : Epoch
epoch_zero = record { number = 0 }

-- The derived `Eq` and `Ord`.
abbrev pub same_epoch : Epoch → Epoch → Bool
same_epoch a b = a.number == b.number

abbrev pub epoch_lt : Epoch → Epoch → Bool
epoch_lt a b = ltb a.number b.number

-- An `as u64` cast keeps the low 64 bits.
unfoldable pub to_wire : Epoch → ℕ × ℕ
to_wire e = (e.number / 2 ^ 64 % 2 ^ 64, e.number % 2 ^ 64)

unfoldable pub from_wire : ℕ → ℕ → Epoch
from_wire hi lo = record { number = bit_or (hi * 2 ^ 64 % 2 ^ 128) lo }

pub record Ballot : Type 0 where
  pub config_id : ℕ
  pub n : ℕ
  pub priority : ℕ
  pub pid : ℕ

unfoldable pub encode_epoch : Ballot → Epoch
encode_epoch b = record {
  number = bit_or (bit_or (b.config_id * 2 ^ 96 % 2 ^ 128) (b.n * 2 ^ 64 % 2 ^ 128)) b.pid;
}

unfoldable pub decode_epoch : Epoch → ℕ × ℕ × ℕ
decode_epoch e = (e.number / 2 ^ 96 % 2 ^ 32, e.number / 2 ^ 64 % 2 ^ 32, e.number % 2 ^ 64)
