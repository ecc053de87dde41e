-- ===== src/Cluster/Steps.antt =====
-- The moves of the cluster keep the invariant.
use mathlib.Core.Path.{subst}
use tsoracle.Prelude.{ℕ, ◌≡◌, refl, ◌==◌, Bool, Bool-cases, inl, inr, arith}
use tsoracle.Epoch.{Epoch, epoch_lt}
use tsoracle.Cluster.{
  off, loaded, Cluster, set_node, published, committed, lost, fence_load, Move, elect, step_down,
  persisted_by, IsFenced, load, publish, lose, commit, fence, extend, grant, step,
}
use tsoracle.Cluster.Invariant.{Inv}
use tsoracle.Cluster.Log.{update-Inv, load-Inv, elect-Inv}
use tsoracle.Cluster.Persists.{
  off-Within, lost-Within, published-Within, commit-Within, fence_from-Inv, extend_from-Inv,
}
use tsoracle.Cluster.Grants.{grant_from-Inv}

load_step-Inv : (c : Cluster) (i : ℕ) → Inv c → Inv (fence_load i c)
unfolding fence_load
load_step-Inv c i v = elim (Bool-cases (c.owner == i)) [
  | inl mine ↦
      let here : c.owner ≡ i = ground arith in
      rw mine (subst (λ j. Inv (set_node j (loaded c.epoch c.high_water) c)) here (load-Inv c v))
  | inr other ↦ rw other (update-Inv c i off v (off-Within (c.nodes i)))
]

pub step-Inv :
    (accepts : ℕ → Epoch → Cluster → Bool) (m : Move) (c : Cluster)
    → Inv c
    → IsFenced accepts (persisted_by m c) c
    → Inv (step accepts m c)
unfolding step persisted_by
step-Inv accepts (elect i e) c v f = elim (Bool-cases (epoch_lt c.epoch e)) [
  | inl newer ↦ rw newer (elect-Inv c i e v (ground arith))
  | inr older ↦ rw older v
]
step-Inv accepts (step_down i) c v f = update-Inv c i off v (off-Within (c.nodes i))
step-Inv accepts (load i) c v f = load_step-Inv c i v
step-Inv accepts (publish i) c v f =
    update-Inv c i (published (c.nodes i)) v (published-Within (c.nodes i) (v.windows.good i))
step-Inv accepts (lose i) c v f =
    update-Inv c i (lost (c.nodes i)) v (lost-Within (c.nodes i) (v.windows.good i))
step-Inv accepts (commit i) c v f =
    update-Inv c i (committed (c.nodes i)) v (commit-Within (c.nodes i) (v.windows.good i))
step-Inv accepts (fence i now advance) c v f =
    fence_from-Inv accepts c i now advance (c.nodes i) v refl f
step-Inv accepts (extend i now ahead) c v f =
    extend_from-Inv accepts c i ahead now (c.nodes i) v refl f
step-Inv accepts (grant i now count) c v f = grant_from-Inv c i now count (c.nodes i) v refl
