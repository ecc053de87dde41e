-- ===== src/Client/Response.antt =====
-- What the client makes of a response that the server sends.
use tsoracle.Prelude.{
  ℕ, zero, suc, ◌+◌, ◌≤◌, ◌<◌, ◌≡◌, refl, ap, Option, some, List, [], ◌∷◌, Result, ok, err, ◌∙◌,
  arith,
}
use tsoracle.Timestamp.{Timestamp, logical_max, physical_ms_max, pack, try_pack}
use tsoracle.Timestamp.Packing.{pack_bits_sum}
use tsoracle.CoreError.{CoreError}
use tsoracle.Allocator.{Allocator, Leader, leader, not_leader, WindowGrant, try_grant}
use tsoracle.Allocator.Invariant.{IsSound, position}
use tsoracle.Allocator.Grants.{Answers, try_grant-Answers}
use tsoracle.Server.Window.{response}
use tsoracle.Client.{TimestampRange, packed_from, timestamps, decode_get_ts_response}

-- The timestamps from the given bits on, one apart.
abbrev pub consecutive : ℕ → ℕ → List (Option Timestamp)
consecutive bits zero = []
consecutive bits (suc n) = some (record { bits = bits }) ∷ consecutive (suc bits) n

packed :
    (p l : ℕ)
    → p ≤ physical_ms_max
    → l ≤ logical_max
    → pack p l ≡ some (record { bits = position p l })
unfolding pack
packed p l h k = ground (arith, pack_bits_sum p l)

next_position : (p l : ℕ) → position p (suc l) ≡ suc (position p l)
next_position p l = omega arith

packed_from_lem :
    (n p l : ℕ)
    → p ≤ physical_ms_max
    → l + n ≤ logical_max + 1
    → packed_from p l n ≡ consecutive (position p l) n
packed_from_lem zero p l h k = refl
packed_from_lem (suc n) p l h k =
    ap (λ t. t ∷ packed_from p (suc l) n) (packed p l h (omega arith))
    ∙ ap (λ ts. some (record { bits = position p l }) ∷ ts)
        (packed_from_lem n p (suc l) h (omega arith)
          ∙ ap (λ b. consecutive b n) (next_position p l))

abbrev range_of : WindowGrant → TimestampRange
range_of g = record {
  physical_ms = g.physical_ms;
  logical_start = g.logical_start;
  count = g.count;
}

-- What the client has of a call that was answered.
abbrev pub Delivers : ℕ → Result CoreError WindowGrant × Allocator → Type 0
Delivers count (ok g, a) =
    (decode_get_ts_response (response g) count ≡ ok (range_of g))
    × (timestamps (range_of g) ≡ consecutive (position g.physical_ms g.logical_start) count)
Delivers count (err e, a) = Unit

grant-Delivers :
    (g : WindowGrant) (count : ℕ)
    → g.count ≡ count
    → 0 < count
    → g.physical_ms ≤ physical_ms_max
    → g.logical_start + count ≤ logical_max + 1
    → Delivers count (ok g, not_leader)
unfolding decode_get_ts_response try_pack timestamps
grant-Delivers g count e c p f = (
  ground arith,
  ap (packed_from g.physical_ms g.logical_start) e
      ∙ packed_from_lem count g.physical_ms g.logical_start p f,
)

answer-Delivers :
    (l : Leader) (r : Result CoreError WindowGrant × Allocator) (now count : ℕ)
    → IsSound l
    → Answers l now count r
    → Delivers count r
answer-Delivers l (err e, a) now count v h = tt
answer-Delivers l (ok g, not_leader) now count v h = absurd h
answer-Delivers l (ok g, leader l') now count v h =
    grant-Delivers g count (omega arith) (omega arith) (omega (arith, v.bounded)) (omega arith)

-- A block that a sound leader grants is taken by the client, when it comes back as the response to a
-- request of that count: the check passes, and the client's timestamps are as many as were asked for, from
-- the first of the block on, each one above the one before, and none of them fails to pack.
pub try_grant-Delivers :
    (l : Leader) (now count : ℕ) → IsSound l → Delivers count (try_grant (leader l) now count)
try_grant-Delivers l now count v =
    answer-Delivers l (try_grant (leader l) now count) now count v (try_grant-Answers l now count v)
