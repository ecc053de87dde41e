-- ===== src/Server/Tests.antt =====
-- The server's theorems over a backend that keeps one number.
use tsoracle.Prelude.{
  ℕ, ◌<◌, ◌≤◌, ◌≡◌, refl, max, true, false, none, some, List, [], ◌∷◌, ok, err, arith,
}
use tsoracle.Epoch.{Epoch}
use tsoracle.Allocator.{leader}
use tsoracle.Allocator as Alloc
use tsoracle.Allocator.Invariant.{IsSound}
use tsoracle.Seq.{SeqAllocator}
use tsoracle.Seq as Seq
use tsoracle.Lease.{LeaseRecord, live_set, projected_live_set, seed}
use tsoracle.Consensus.{LeaderState, dense_unsupported}
use tsoracle.Server.Core.{new, is_serving, serving, current_epoch, is_epoch}
use tsoracle.Server.Action.{Server, Runtime}
use tsoracle.Server.Leases.{persist_lease_mutation}
use tsoracle.Server.Fence.{attempt, serving_floor_of}
use tsoracle.Server.Invariant.{IsCore}
use tsoracle.Server.Handlers.{IsQuiet}
use tsoracle.Server.Failover.{fenced_leader, attempt_lem}
use tsoracle.Server.Tasks.{Task, timestamps, event, run_all, run_all-IsCore}
use tsoracle.Server.Durable.{upserting, upsert-durable}

abbrev run : Runtime ℕ
run = record {
  consensus = record {
    load_high_water = λ s. (ok s.backend, s);
    persist_high_water = λ n e s. (ok (max s.backend n), record s { backend = max s.backend n });
    load_dense_seq = λ k s. (err dense_unsupported, s);
    advance_dense = λ k c e s. (err dense_unsupported, s);
    advance_dense_batch = λ ks e s. (err dense_unsupported, s);
    load_leases = λ s. (ok [], s);
    persist_leases = λ rs e s. (ok tt, s);
  };
  extension_slot = λ s. s;
  drain_barrier = λ s. s;
}

run-IsQuiet : IsQuiet run
run-IsQuiet = record {
  slot = λ s v. v;
  gate = λ s v. v;
  load_high_water = λ s v. v;
  persist_high_water = λ n e s v. v;
  advance_dense = λ k c e s v. v;
  advance_dense_batch = λ ks e s v. v;
  load_leases = λ s v. v;
  persist_leases = λ rs e s v. v;
}

-- A process that has just started, over a backend that stores 900.
abbrev started : Server ℕ
started = record { core = new 3000 65536 128; backend = 900 }

started-IsCore : IsCore started.core
unfolding Seq.epoch_of Alloc.epoch_of
started-IsCore = record { valid = tt; lockstep = refl; led = λ h. ground arith }

abbrev two : Epoch
two = record { number = 2 }

abbrev tasks : List (Task ℕ)
tasks = event (((λ s. s), 700) ∷ []) (LeaderState.leader two) ∷ timestamps 700 5 ∷ []

run_all-IsCore_example : IsCore (run_all run 1000 tasks started).core
run_all-IsCore_example =
    run_all-IsCore run 1000 tasks started run-IsQuiet (((λ s v. v), tt), (tt, tt)) started-IsCore

attempt_lem_example :
    let r = attempt run 1000 (λ s. s) 700 two started in
    (r.0 ≡ ok tt)
    × (is_serving r.1.core ≡ true)
    × (r.1.core.allocator ≡ leader (fenced_leader two (serving_floor_of 900 700) 1901))
    × (r.1.core.lease_table ≡ seed [] 700)
    × (900 < serving_floor_of 900 700)
    × (700 ≤ serving_floor_of 900 700)
    × IsSound (fenced_leader two (serving_floor_of 900 700) 1901)
attempt_lem_example =
    attempt_lem run 1000 (λ s. s) 700 900 1901 two [] started started started
      (record started { backend = 1901 }) refl refl refl (omega arith) (omega arith)

abbrev led : Server ℕ
led = record {
  core = record started.core {
    allocator = leader (fenced_leader two 901 1901);
    seq_allocator = SeqAllocator.leader two;
    state = serving;
  };
  backend = 1901;
}

abbrev lease : LeaseRecord
lease = record {
  lease_id = 1901;
  holder = 7 ∷ [];
  holder_epoch = 1;
  ttl_ms = 5000;
  ts_upper_bound = 1901;
  expires_at_ms = 5700;
  superseded = false;
}

led_at_two : is_epoch two (current_epoch led.core) ≡ true
unfolding Alloc.epoch_of
led_at_two = ground arith

upsert-durable_example :
    let r = persist_lease_mutation run (upserting lease none) two 700 led in
    (r.0 ≡ ok tt)
    × (live_set r.1.core.lease_table 700
        ≡ projected_live_set led.core.lease_table (some lease) none none 700)
    × (r.1.core.allocator ≡ led.core.allocator)
upsert-durable_example = upsert-durable run lease none two 700 led led tt led_at_two refl refl refl
