-- ===== src/Client/Tests.antt =====
-- A granted block that reaches the client, and a pass with two redirects.
use tsoracle.Prelude.{ℕ, ◌+◌, ◌≤◌, ◌≡◌, true, List, [], ◌∷◌, length, inl, arith}
use tsoracle.Allocator.{Leader, leader, try_grant}
use tsoracle.Allocator.Invariant.{IsSound}
use tsoracle.Client.{Endpoint, Worklist, new, AttemptOutcome, fails, leader_hint, pass}
use tsoracle.Client.Response.{Delivers, try_grant-Delivers}
use tsoracle.Client.Sweep.{Fresh, pass-Swept}

abbrev serving : Leader
serving = record {
  epoch = record { number = 3 };
  committed_high_water = 900;
  next_physical_ms = 700;
  next_logical = 5;
}

serving-IsSound : IsSound serving
serving-IsSound = record {
  bounded = omega arith;
  packable = omega arith;
  within = inl (omega arith);
}

try_grant-Delivers_example : Delivers 4 (try_grant (leader serving) 650 4)
try_grant-Delivers_example = try_grant-Delivers serving 650 4 serving-IsSound

abbrev at : ℕ → Endpoint
at n = n ∷ []

abbrev outcomes : List AttemptOutcome
outcomes = fails ∷ leader_hint (at 9) ∷ leader_hint (at 1) ∷ fails ∷ fails ∷ fails ∷ fails ∷ []

abbrev started : Worklist
started = new (at 1 ∷ at 2 ∷ at 3 ∷ [])

pass-Swept_example :
    Fresh started.visited (pass 2 outcomes started).0
    × (length (pass 2 outcomes started).0 ≤ length started.queue + 2)
    × ((pass 2 outcomes started).1 ≡ true)
unfolding new
pass-Swept_example = pass-Swept 2 outcomes started (omega arith)
