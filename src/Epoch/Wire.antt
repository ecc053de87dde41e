-- ===== src/Epoch/Wire.antt =====
-- The wire halves and the packed ballot lose nothing and keep the order.
use tsoracle.Prelude.{ℕ, ◌+◌, ◌*◌, ◌/◌, ◌%◌, ◌^◌, ◌<◌, ◌≡◌, ◌⊎◌, ◌↔◌, ap, arith}
use tsoracle.Bits.{bit_or_shifted}
use tsoracle.Epoch.{Epoch, Ballot, to_wire, from_wire, encode_epoch, decode_epoch}

from_wire_sum :
    (hi lo : ℕ) → hi < 2 ^ 64 → lo < 2 ^ 64 → (from_wire hi lo).number ≡ hi * 2 ^ 64 + lo
unfolding from_wire
from_wire_sum hi lo h k =
    let whole : hi * 2 ^ 64 % 2 ^ 128 ≡ hi * 2 ^ 64 = omega arith in
    rw whole (bit_or_shifted 64 hi lo k)

-- For an epoch of 128 bits and halves of 64: reassembling the halves of an epoch gives the epoch,
-- splitting a reassembled one gives the halves, and the order of reassembled epochs is that of
-- their halves, the high one deciding first.
pub wire_round_trip :
    (e : Epoch) (hi lo hi' lo' : ℕ)
    → e.number < 2 ^ 128
    → hi < 2 ^ 64
    → lo < 2 ^ 64
    → hi' < 2 ^ 64
    → lo' < 2 ^ 64
    → (from_wire (to_wire e).0 (to_wire e).1 ≡ e)
      × (to_wire (from_wire hi lo) ≡ (hi, lo))
      × (((from_wire hi lo).number < (from_wire hi' lo').number)
          ↔ ((hi < hi') ⊎ ((hi ≡ hi') × (lo < lo'))))
unfolding to_wire
wire_round_trip e hi lo hi' lo' he h k h' k' = (
  ground (arith, from_wire_sum (e.number / 2 ^ 64 % 2 ^ 64) (e.number % 2 ^ 64)),
  ground (arith, from_wire_sum hi lo h k),
  ground (arith, from_wire_sum hi lo h k, from_wire_sum hi' lo' h' k'),
)

-- The fields of a ballot fit the widths of their types.
abbrev pub Fits : Ballot → Type 0
Fits b = (b.config_id < 2 ^ 32) × (b.n < 2 ^ 32) × (b.pid < 2 ^ 64)

pub encode_epoch_sum :
    (b : Ballot) → Fits b → (encode_epoch b).number ≡ b.config_id * 2 ^ 96 + b.n * 2 ^ 64 + b.pid
unfolding encode_epoch
encode_epoch_sum b (hc, hn, hp) =
    let c : b.config_id * 2 ^ 96 % 2 ^ 128 ≡ b.config_id * 2 ^ 96 = omega arith in
    let n : b.n * 2 ^ 64 % 2 ^ 128 ≡ b.n * 2 ^ 64 = omega arith in
    let s : b.config_id * 2 ^ 96 + b.n * 2 ^ 64 ≡ (b.config_id * 2 ^ 32 + b.n) * 2 ^ 64 =
      omega arith in
    rw (c, n, bit_or_shifted 96 b.config_id (b.n * 2 ^ 64) (omega arith), s)
      (bit_or_shifted 64 (b.config_id * 2 ^ 32 + b.n) b.pid hp)

same_parts :
    (a b : Ballot)
    → Fits a
    → Fits b
    → (encode_epoch a).number ≡ (encode_epoch b).number
    → (a.config_id ≡ b.config_id) × (a.n ≡ b.n) × (a.pid ≡ b.pid)
same_parts a b fa fb h = omega (arith, encode_epoch_sum a fa, encode_epoch_sum b fb, h)

same_epochs :
    (a b : Ballot)
    → a.config_id ≡ b.config_id
    → a.n ≡ b.n
    → a.pid ≡ b.pid
    → encode_epoch a ≡ encode_epoch b
unfolding encode_epoch
same_epochs a b c n p = cc (c, n, p)

-- For ballots whose fields fit their types: an epoch decodes to the configuration, the round and
-- the node of its ballot; epochs are ordered by the configuration, then the round, then the node;
-- and two ballots share an epoch exactly when they agree in these three, whatever their priorities.
pub encode_epoch_order :
    (a b : Ballot)
    → Fits a
    → Fits b
    → (decode_epoch (encode_epoch a) ≡ (a.config_id, a.n, a.pid))
      × (((encode_epoch a).number < (encode_epoch b).number) ↔ (
          (a.config_id < b.config_id)
          ⊎ ((a.config_id ≡ b.config_id) × ((a.n < b.n) ⊎ ((a.n ≡ b.n) × (a.pid < b.pid))))))
      × ((encode_epoch a ≡ encode_epoch b)
          ↔ ((a.config_id ≡ b.config_id) × (a.n ≡ b.n) × (a.pid ≡ b.pid)))
unfolding decode_epoch
encode_epoch_order a b fa fb = (
  ground (arith, encode_epoch_sum a fa),
  ground (arith, encode_epoch_sum a fa, encode_epoch_sum b fb),
  (λ h. same_parts a b fa fb (ap (λ (e : Epoch). e.number) h), λ (c, n, p). same_epochs a b c n p),
)
