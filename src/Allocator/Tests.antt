-- ===== src/Allocator/Tests.antt =====
-- The allocator's theorems at concrete leaders.
use tsoracle.Prelude.{ℕ, ◌≡◌, refl, List, [], ◌∷◌, ok, true, inl, arith}
use tsoracle.Epoch.{Epoch}
use tsoracle.CoreError.{PhysicalMs}
use tsoracle.Allocator.{
  Leader, leader, try_grant, try_prepare_window_extension, try_commit_window_extension,
}
use tsoracle.Allocator.Invariant.{IsSound, position}
use tsoracle.Allocator.Grants.{Answers, CanStart, Least, try_grant_lem}
use tsoracle.Allocator.Extension.{retry, retry_succeeds}
use tsoracle.Allocator.Order.{Call, grants, commits, issued, Ascending, issued-Ascending}

abbrev seven : Epoch
seven = record { number = 7 }

abbrev ms : ℕ → PhysicalMs
ms n = record { get = n }

-- One slot short of the end of the millisecond 1000.
abbrev nearly : Leader
nearly = record {
  committed_high_water = 1000;
  next_physical_ms = 1000;
  next_logical = 262143;
  epoch = seven;
}

nearly-IsSound : IsSound nearly
nearly-IsSound = record {
  bounded = omega arith;
  packable = omega arith;
  within = inl (omega arith);
}

abbrev calls : List Call
calls = grants 900 1 ∷ grants 900 2 ∷ commits (ms 1005) seven ∷ grants 900 2 ∷ []

one_after_the_commit :
    issued (leader nearly) calls
    ≡ record { physical_ms = 1000; logical_start = 262143; count = 1; epoch = seven }
      ∷ record { physical_ms = 1001; logical_start = 0; count = 2; epoch = seven }
      ∷ []
unfolding issued try_grant try_commit_window_extension
one_after_the_commit = refl

issued-Ascending_example : Ascending (position 1000 262143) (issued (leader nearly) calls)
issued-Ascending_example =
    issued-Ascending nearly calls nearly-IsSound (tt, (tt, (omega arith, (tt, tt))))

try_grant_lem_example :
    Answers nearly 900 1 (try_grant (leader nearly) 900 1)
    × ((q k : ℕ)
        → CanStart nearly 900 1 q k
        → Least nearly 1 q k (try_grant (leader nearly) 900 1).0)
try_grant_lem_example = try_grant_lem nearly 900 1 nearly-IsSound

prepared : try_prepare_window_extension (leader nearly) (ms 900) 3000 ≡ ok (ms 4001)
unfolding try_prepare_window_extension
prepared = refl

retry_succeeds_example : retry nearly (ms 4001) 900 2 ≡ true
retry_succeeds_example =
    retry_succeeds nearly (ms 900) (ms 4001) (ms 4001) 3000 2 nearly-IsSound (omega arith)
      (omega arith) (omega arith) prepared (omega arith)
