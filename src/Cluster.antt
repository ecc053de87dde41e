-- ===== src/Cluster.antt =====
-- Several servers over one replicated high-water: crates/tsoracle-server/src/fence.rs and service.rs
-- on every node, against crates/tsoracle-consensus/src/driver.rs. Which persists the backend accepts
-- is its own choice there, and a parameter here (`accepts`); what the theorems ask of it is `Fenced`.
pub mod Invariant
pub mod Nodes
pub mod Log
pub mod Persists
pub mod Grants
pub mod Steps
pub mod Safety
mod Tests
use tsoracle.Prelude.{
  ◌≡◌, ℕ, ◌+◌, ◌==◌, ltb, ◌&&◌, if◌then◌else◌, Bool, true, false, Option, none, some, List, [], ◌∷◌,
  Result, ok, err, ◌>>=◌, saturating_add_u64,
}
use tsoracle.Timestamp.{physical_ms_max}
use tsoracle.Epoch.{Epoch, epoch_zero, same_epoch, epoch_lt}
use tsoracle.CoreError.{CoreError, PhysicalMs, try_new_ms}
use tsoracle.Allocator.{
  Allocator, Leader, leader, not_leader, WindowGrant, become_leader, try_grant,
  try_prepare_window_extension, try_commit_window_extension,
}
use tsoracle.Consensus.{AdvancePayload, merge, reject_out_of_range_advance}
use tsoracle.Server.Fence.{serving_floor_of}

-- Where a node stands: no leader; a fence that has loaded the high-water, or has persisted the new
-- one; a leader; a leader whose extension is persisted and not committed.
pub data Node : Type 0 where
  off : Node
  loaded : (epoch : Epoch) (prior_max : ℕ) → Node
  raised : (epoch : Epoch) (serving_floor actual : ℕ) → Node
  led : (l : Leader) → Node
  extending : (l : Leader) (actual : ℕ) → Node

-- `owner` is the node that was elected for the current epoch. `issued` is newest first.
pub record Cluster : Type 0 where
  pub high_water : ℕ
  pub epoch : Epoch
  pub owner : ℕ
  pub nodes : ℕ → Node
  pub issued : List WindowGrant

abbrev pub start : Cluster
start = record { high_water = 0; epoch = epoch_zero; owner = 0; nodes = λ _. off; issued = [] }

abbrev pub update : (ℕ → Node) → ℕ → Node → ℕ → Node
update nodes i n j = if j == i then n else nodes j

abbrev pub set_node : ℕ → Node → Cluster → Cluster
set_node i n c = record c { nodes = update c.nodes i n }

-- The allocator of a result, if it leads.
abbrev pub led_by : {E : Type 0} → Result E Allocator → Node
led_by (ok (leader l)) = led l
led_by (ok not_leader) = off
led_by (err e) = off

-- `seed_on_leadership_gained` and `publish_serving`
unfoldable pub seeded : Epoch → ℕ → ℕ → Node
seeded e serving_floor actual =
    led_by
      (try_new_ms serving_floor >>= λ f. try_new_ms actual >>= λ a. become_leader not_leader f a e)

unfoldable pub published : Node → Node
unfolding seeded
published (raised e serving_floor actual) = seeded e serving_floor actual
published n = n

-- The commit of what the persist answered.
abbrev pub committed_as : Leader → Epoch → Result CoreError PhysicalMs → Node
committed_as l e (ok p) = led_by {E = CoreError} (ok (try_commit_window_extension (leader l) p e).1)
committed_as l e (err x) = led l

unfoldable pub committed : Node → Node
committed (extending l actual) = committed_as l l.epoch (try_new_ms actual)
committed n = n

-- The answer of a persist is lost, or is a transient error after all.
unfoldable pub lost : Node → Node
lost (extending l actual) = led l
lost (raised e serving_floor actual) = off
lost n = n

-- `enter_fencing`, and the load: only the elected node's fence can get past the persist.
unfoldable pub fence_load : ℕ → Cluster → Cluster
fence_load i c = set_node i (if c.owner == i then loaded c.epoch c.high_water else off) c

-- A grant, put down in the log, and the node with the cursor moved.
abbrev pub granted :
    ℕ → (Leader → Node) → Result CoreError WindowGrant × Allocator → Cluster → Cluster
granted i back (ok g, leader l) c = set_node i (back l) (record c { issued = g ∷ c.issued })
granted i back _ c = c

abbrev pub grant_from : ℕ → ℕ → ℕ → Node → Cluster → Cluster
grant_from i now_ms count (led l) c = granted i led (try_grant (leader l) now_ms count) c
grant_from i now_ms count (extending l actual) c =
    granted i (λ l'. extending l' actual) (try_grant (leader l) now_ms count) c
grant_from i now_ms count n c = c

pub data Move : Type 0 where
  elect : (i : ℕ) (e : Epoch) → Move
  step_down load publish lose commit : (i : ℕ) → Move
  fence : (i now_ms advance : ℕ) → Move
  extend : (i : ℕ) (now : PhysicalMs) (ahead : ℕ) → Move
  grant : (i now_ms count : ℕ) → Move

-- The node and the epoch for which the move persists, if it does.
unfoldable pub persisted_by : Move → Cluster → Option (ℕ × Epoch)
persisted_by (fence i now_ms advance) c = elim (c.nodes i) [
  | loaded e prior ↦ some (i, e)
  | _ ↦ none
]
persisted_by (extend i now ahead) c = elim (c.nodes i) [ led l ↦ some (i, l.epoch) | _ ↦ none ]
persisted_by m c = none

-- `accepts i e c`: does the backend accept a persist of the epoch `e` by the node `i`?
module _ (accepts : ℕ → Epoch → Cluster → Bool) where
  -- A persist through the backend: the new high-water is the answer, and what the node does with it. A
  -- refused one steps the node down, an out-of-range one changes nothing in the backend.
  unfoldable pub persist : ℕ → Epoch → ℕ → (ℕ → Node) → Cluster → Cluster
  unfolding merge reject_out_of_range_advance
  persist i e requested answered c =
      if accepts i e c
      then elim (reject_out_of_range_advance requested) [
        | err x ↦ set_node i off c
        | ok u ↦
            let actual = merge (record { at_least = requested }) c.high_water in
            set_node i (answered actual) (record c { high_water = actual })
      ]
      else set_node i off c

  abbrev pub fence_from : ℕ → ℕ → ℕ → Node → Cluster → Cluster
  unfolding persist
  fence_from i now_ms advance (loaded e prior) c =
      persist i e (saturating_add_u64 (serving_floor_of prior now_ms) advance)
        (raised e (serving_floor_of prior now_ms)) c
  fence_from i now_ms advance n c = c

  abbrev pub extended : ℕ → Leader → Result CoreError PhysicalMs → Cluster → Cluster
  unfolding persist
  extended i l (ok requested) c = persist i l.epoch requested.get (extending l) c
  extended i l (err x) c = c

  abbrev pub extend_from : ℕ → PhysicalMs → ℕ → Node → Cluster → Cluster
  unfolding extended
  extend_from i now ahead (led l) c =
      extended i l (try_prepare_window_extension (leader l) now ahead) c
  extend_from i now ahead n c = c

  unfoldable pub step : Move → Cluster → Cluster
  unfolding fence_load published committed lost fence_from extend_from
  step (elect i e) c = if epoch_lt c.epoch e then record c { epoch = e; owner = i } else c
  step (step_down i) c = set_node i off c
  step (load i) c = fence_load i c
  step (publish i) c = set_node i (published (c.nodes i)) c
  step (lose i) c = set_node i (lost (c.nodes i)) c
  step (commit i) c = set_node i (committed (c.nodes i)) c
  step (fence i now_ms advance) c = fence_from i now_ms advance (c.nodes i) c
  step (extend i now ahead) c = extend_from i now ahead (c.nodes i) c
  step (grant i now_ms count) c = grant_from i now_ms count (c.nodes i) c

  unfoldable pub run : List Move → Cluster → Cluster
  unfolding step
  run [] c = c
  run (m ∷ ms) c = run ms (step m c)

  -- A persist that is accepted is of the current epoch.
  abbrev pub IsFenced : Option (ℕ × Epoch) → Cluster → Type 0
  IsFenced none c = Unit
  IsFenced (some (i, e)) c = accepts i e c ≡ true → e.number ≡ c.epoch.number

  -- So is every one of a run.
  unfoldable pub Fenced : List Move → Cluster → Type 0
  Fenced [] c = Unit
  Fenced (m ∷ ms) c = IsFenced (persisted_by m c) c × Fenced ms (step m c)
