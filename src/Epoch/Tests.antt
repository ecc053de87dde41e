-- ===== src/Epoch/Tests.antt =====
-- The epoch's two wire words and the paxos ballot at concrete values.
use tsoracle.Prelude.{ℕ, ◌+◌, ◌<◌, ◌≡◌, ◌^◌, ◌⊎◌, arith}
use mathlib.Core.Logic.{◌↔◌}
use tsoracle.Epoch.{Epoch, to_wire, from_wire, Ballot, encode_epoch, decode_epoch}
use tsoracle.Epoch.Wire.{wire_round_trip, encode_epoch_order}

abbrev beyond : Epoch
beyond = record { number = 2 ^ 64 + 3 }

wire_round_trip_example :
    (from_wire (to_wire beyond).0 (to_wire beyond).1 ≡ beyond)
    × (to_wire (from_wire 1 3) ≡ (1, 3))
    × (((from_wire 1 3).number < (from_wire 2 0).number)
        ↔ ((1 < 2) ⊎ ((◌≡◌ {A = ℕ} 1 2) × (3 < 0))))
wire_round_trip_example =
    wire_round_trip beyond 1 3 2 0 (omega arith) (omega arith) (omega arith) (omega arith)
      (omega arith)

abbrev low : Ballot
low = record { config_id = 1; n = 9; priority = 4; pid = 3 }

abbrev high : Ballot
high = record { config_id = 2; n = 1; priority = 0; pid = 1 }

encode_epoch_order_example :
    (decode_epoch (encode_epoch low) ≡ (1, 9, 3))
    × (((encode_epoch low).number < (encode_epoch high).number)
        ↔ ((1 < 2) ⊎ ((◌≡◌ {A = ℕ} 1 2) × ((9 < 1) ⊎ ((◌≡◌ {A = ℕ} 9 1) × (3 < 1))))))
    × ((encode_epoch low ≡ encode_epoch high)
        ↔ ((◌≡◌ {A = ℕ} 1 2) × (◌≡◌ {A = ℕ} 9 1) × (◌≡◌ {A = ℕ} 3 1)))
encode_epoch_order_example =
    encode_epoch_order low high (omega arith, omega arith, omega arith)
      (omega arith, omega arith, omega arith)
