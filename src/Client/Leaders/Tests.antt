-- ===== src/Client/Leaders/Tests.antt =====
-- A leader that is found, passed on and not lost to a late answer; and a rotation of three endpoints.
use tsoracle.Prelude.{ℕ, ◌≡◌, refl, false, arith, some, none, List, [], ◌∷◌}
use tsoracle.BTreeMap.Ord.{cmp_bytes}
use tsoracle.Client.{Endpoint}
use tsoracle.Client.Leaders.{
  ChannelPool, confirmed, hinted, cached_leader, is_configured, iter_round_robin, seat_leader,
}
use tsoracle.Client.Leaders.Floor.{Seat, run, Holds, run-Holds}

abbrev at : ℕ → Endpoint
at n = n ∷ []

abbrev pool : ChannelPool
pool = record {
  configured = at 1 ∷ at 2 ∷ at 3 ∷ [];
  rotation = 7;
  leader = some (record { endpoint = at 2; epoch = some 7; last_used = 100 });
  leader_ttl = 50;
}

abbrev seats : List Seat
seats =
    record { now = 110; endpoint = at 2; epoch = some 4; source = confirmed }
    ∷ record { now = 112; endpoint = at 9; epoch = none; source = hinted }
    ∷ record { now = 120; endpoint = at 3; epoch = some 9; source = hinted }
    ∷ record { now = 125; endpoint = at 2; epoch = some 7; source = confirmed }
    ∷ []

started : (iter_round_robin 130 pool).0 ≡ at 2 ∷ at 3 ∷ at 1 ∷ []
unfolding iter_round_robin cmp_bytes
started = refl

passed_on : cached_leader 130 (run seats pool) ≡ some (at 3)
unfolding run cached_leader cmp_bytes seat_leader
passed_on = refl

off_list : is_configured (at 9) pool.configured ≡ false
unfolding is_configured cmp_bytes
off_list = refl

run-Holds_example : Holds 7 100 (run seats pool).leader
run-Holds_example =
    run-Holds 7 100 seats pool (omega arith, omega arith)
      (
        (omega arith, omega arith, tt),
        (
          (omega arith, omega arith, off_list),
          ((omega arith, omega arith, tt), ((omega arith, omega arith, tt), tt)),
        ),
      )
