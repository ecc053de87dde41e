-- ===== src/Seq/Tests.antt =====
-- The sequence gate at concrete requests.
use tsoracle.Prelude.{[], ◌∷◌}
use tsoracle.Epoch.{Epoch}
use tsoracle.Seq.{SeqKey, try_new_grant}
use tsoracle.Seq.Laws.{Blocks, try_new_grant_lem}

abbrev two : Epoch
two = record { number = 2 }

abbrev key : SeqKey
key = record { bytes = 111 ∷ [] }

try_new_grant_lem_example :
    Blocks key 18446744073709551615 1 two (try_new_grant key 18446744073709551615 1 two)
try_new_grant_lem_example = try_new_grant_lem key 18446744073709551615 1 two
