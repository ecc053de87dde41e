-- ===== src/Cluster/Tests.antt =====
-- A failover: node 1 leads epoch 1 and goes on granting while node 2 takes over.
use tsoracle.Prelude.{ℕ, ◌≤◌, ◌≡◌, ◌==◌, ◌&&◌, Bool, true, refl, List, [], ◌∷◌, arith}
use tsoracle.Epoch.{Epoch, same_epoch}
use tsoracle.CoreError.{try_new_ms}
use tsoracle.Allocator.{
  WindowGrant, try_prepare_window_extension, try_commit_window_extension, Leader, become_leader,
  try_grant,
}
use tsoracle.Allocator.Invariant.{position}
use tsoracle.Consensus.{merge, reject_out_of_range_advance}
use tsoracle.Cluster.{
  Cluster, Fenced, persisted_by, extend, led, start, Move, elect, load, publish, fence, grant,
  commit, committed, step, run, seeded, published, persist, fence_load,
}
use tsoracle.Cluster.Invariant.{Ordered}
use tsoracle.Cluster.Safety.{precheck-Fenced, run-Ordered, run-apart}

abbrev epoch_of : ℕ → Epoch
epoch_of n = record { number = n }

abbrev take_over : ℕ → ℕ → List Move → List Move
take_over i e ms = elect i (epoch_of e) ∷ load i ∷ fence i 100 50 ∷ publish i ∷ ms

abbrev moves : List Move
moves = take_over 1 1 (grant 1 100 5 ∷ take_over 2 2 (grant 1 120 5 ∷ grant 2 100 5 ∷ []))

-- A backend that compares epochs, and one that takes what comes from its leader.
abbrev compares : ℕ → Epoch → Cluster → Bool
compares i e c = same_epoch e c.epoch && c.owner == i

abbrev forwards : ℕ → Epoch → Cluster → Bool
forwards i e c = c.owner == i

compares-current :
    (i : ℕ) (e : Epoch) (c : Cluster) → compares i e c ≡ true → e.number ≡ c.epoch.number
compares-current i e c h = ground arith

moves-Fenced : Fenced forwards moves start
unfolding Fenced persisted_by step fence_load persist published seeded try_new_ms become_leader
    try_grant merge reject_out_of_range_advance
moves-Fenced = (tt, (tt, (λ h. refl, (tt, (tt, (tt, (tt, (λ h. refl, (tt, (tt, (tt, tt)))))))))))

run-Ordered_example : Ordered (run forwards moves start).issued
run-Ordered_example = run-Ordered forwards moves moves-Fenced

abbrev old : Leader
old = record {
  epoch = epoch_of 1;
  committed_high_water = 150;
  next_physical_ms = 120;
  next_logical = 5;
}

abbrev new : Leader
new = record {
  epoch = epoch_of 2;
  committed_high_water = 201;
  next_physical_ms = 151;
  next_logical = 5;
}

first_leader : (run forwards moves start).nodes 1 ≡ led old
unfolding run step fence_load persist published seeded try_new_ms become_leader try_grant merge
    reject_out_of_range_advance
first_leader = refl

second_leader : (run forwards moves start).nodes 2 ≡ led new
unfolding run step fence_load persist published seeded try_new_ms become_leader try_grant merge
    reject_out_of_range_advance
second_leader = refl

run-apart_example : position 151 0 ≤ position 151 5
run-apart_example =
    run-apart forwards moves 1 2 old new moves-Fenced first_leader second_leader (omega arith)

compares_all-Fenced : Fenced compares moves start
compares_all-Fenced = precheck-Fenced compares compares-current moves start

-- Node 1 is elected again, and before it hears of that it extends its window with its earlier epoch.
abbrev unheard : List Move
unheard = take_over 1 1 (
    grant 1 100 5
    ∷ take_over 2 2 (
        grant 2 160 5
        ∷ elect 1 (epoch_of 3)
        ∷ extend 1 (record { get = 160 }) 50
        ∷ commit 1
        ∷ grant 1 160 5
        ∷ []))

abbrev block : (ms epoch : ℕ) → WindowGrant
block ms e = record { physical_ms = ms; logical_start = 0; count = 5; epoch = epoch_of e }

-- A backend that forwards accepts that, and a block of the newer epoch is issued a second time: such a
-- run is not `Fenced`.
issued_again : (run forwards unheard start).issued ≡ block 160 1 ∷ block 160 2 ∷ block 100 1 ∷ []
unfolding run step fence_load persist published committed seeded try_new_ms become_leader try_grant
    merge reject_out_of_range_advance try_prepare_window_extension try_commit_window_extension
issued_again = refl

again_not-Fenced : Fenced forwards unheard start → ⊥
unfolding Fenced persisted_by step fence_load persist published seeded try_new_ms become_leader
    try_grant merge reject_out_of_range_advance
again_not-Fenced h =
    let extended : ◌≡◌ {A = ℕ} 1 3 = h.1.1.1.1.1.1.1.1.1.1.1.0 refl in omega (arith, extended)
