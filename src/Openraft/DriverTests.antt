-- ===== src/Openraft/DriverTests.antt =====
-- The driver's calls on a leader whose format is activated, behind another node's entries.
use tsoracle.Prelude.{◌<◌, ℕ, ◌⊎◌, List, [], ◌∷◌}
use tsoracle.Epoch.{Epoch}
use tsoracle.Openraft.Entries.{dense_write_version, HighWaterCommand, normal, Entry}
use tsoracle.Openraft.Apply.{apply}
use tsoracle.Openraft.Driver.{commits, persist_high_water, advance_dense, persist_leases}
use tsoracle.Openraft.HighWater.{HighWaterPersisted, persist_high_water_lem}
use tsoracle.Openraft.Proposals.{DenseAdvanced, Refused, advance_dense_lem}
use tsoracle.Openraft.LeaseProposals.{LeasesPersisted, persist_leases_lem}
use tsoracle.Openraft.Tests.{raft, key_a, take_a, lease, leader, entry}

abbrev ahead : List (Entry ℕ (List ℕ))
ahead =
    entry 22 (normal (HighWaterCommand.advance (record { at_least = 90 })))
    ∷ entry 23 (normal (HighWaterCommand.advance_dense (take_a 4)))
    ∷ []

abbrev epoch_two : Epoch
epoch_two = record { number = 2 }

persist_high_water_lem_example :
    HighWaterPersisted raft 70 leader (persist_high_water raft (commits ahead 24) 70 leader)
persist_high_water_lem_example = persist_high_water_lem raft (commits ahead 24) 70 leader

advance_dense_lem_example :
    DenseAdvanced raft key_a 3
      (apply raft ahead leader).1
      (advance_dense raft (commits ahead 24) key_a 3 leader)
    ⊎ ((leader.active_write_version < dense_write_version)
        × Refused raft leader (advance_dense raft (commits ahead 24) key_a 3 leader))
advance_dense_lem_example = advance_dense_lem raft ahead 24 key_a 3 leader

persist_leases_lem_example :
    LeasesPersisted raft ahead 24
      (lease ∷ [])
      epoch_two
      leader
      (persist_leases raft (commits ahead 24) (lease ∷ []) epoch_two leader)
persist_leases_lem_example = persist_leases_lem raft ahead 24 (lease ∷ []) epoch_two leader
