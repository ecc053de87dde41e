-- ===== src/Cluster/Invariant.antt =====
-- What holds in every state of the cluster: where the nodes' windows lie.
use tsoracle.Prelude.{ℕ, ◌+◌, ◌≤◌, ◌<◌, ◌≡◌, max, Option, none, some, List, [], ◌∷◌}
use tsoracle.Allocator.{WindowGrant}
use tsoracle.Allocator.Invariant.{IsSound, position}
use tsoracle.Cluster.{Node, off, loaded, raised, led, extending, Cluster}

-- The epoch that a node acts for.
abbrev pub era : Node → Option ℕ
era off = none
era (loaded e p) = some e.number
era (raised e f a) = some e.number
era (led l) = some l.epoch.number
era (extending l a) = some l.epoch.number

-- Past every timestamp that the node may still issue without another persist.
abbrev pub top : Node → ℕ
top off = 0
top (loaded e p) = 0
top (raised e f a) = position (a + 1) 0
top (led l) = position (l.committed_high_water + 1) 0
top (extending l a) = position (max l.committed_high_water a + 1) 0

-- At or below every timestamp that the node issues from here on.
abbrev pub low : Node → ℕ
low off = 0
low (loaded e p) = position (p + 1) 0
low (raised e f a) = position f 0
low (led l) = position l.next_physical_ms l.next_logical
low (extending l a) = position l.next_physical_ms l.next_logical

abbrev pub IsGood : Node → Type 0
IsGood (led l) = IsSound l
IsGood (extending l a) = IsSound l
IsGood _ = Unit

abbrev pub end : WindowGrant → ℕ
end g = position g.physical_ms g.logical_start + g.count

abbrev pub begin : WindowGrant → ℕ
begin g = position g.physical_ms g.logical_start

abbrev pub AllOf : (WindowGrant → Type 0) → List WindowGrant → Type 0
AllOf P [] = Unit
AllOf P (g ∷ gs) = P g × AllOf P gs

-- Of two blocks the one of the lower epoch lies below, and of one epoch the one issued first.
abbrev pub Before : WindowGrant → WindowGrant → Type 0
Before g h =
    (h.epoch.number ≤ g.epoch.number → end h ≤ begin g)
    × (g.epoch.number < h.epoch.number → end g ≤ begin h)

-- The blocks, newest first.
abbrev pub Ordered : List WindowGrant → Type 0
Ordered [] = Unit
Ordered (g ∷ gs) = AllOf (Before g) gs × Ordered gs

-- What a block that was issued says of the node `n`.
abbrev pub Clear : Node → WindowGrant → Type 0
Clear n g =
    (e : ℕ)
    → era n ≡ some e
    → (g.epoch.number ≤ e → end g ≤ low n) × (e < g.epoch.number → top n ≤ begin g)

abbrev pub Capped : ℕ → ℕ → WindowGrant → Type 0
Capped high_water e g = (end g ≤ position (high_water + 1) 0) × (g.epoch.number ≤ e)

-- The nodes, the backend's high-water `h`, its epoch `e` and that epoch's owner.
pub record Nodes (h e owner : ℕ) (nodes : ℕ → Node) : Type 0 where
  pub good : (i : ℕ) → IsGood (nodes i)
  pub capped : (i : ℕ) → top (nodes i) ≤ position (h + 1) 0
  pub reached : (i x : ℕ) → era (nodes i) ≡ some x → x ≤ e
  pub owned : (i : ℕ) → era (nodes i) ≡ some e → owner ≡ i
  pub alone : (i j x : ℕ) → era (nodes i) ≡ some x → era (nodes j) ≡ some x → i ≡ j
  pub apart :
      (i j x y : ℕ)
      → era (nodes i) ≡ some x
      → era (nodes j) ≡ some y
      → x < y
      → top (nodes i) ≤ low (nodes j)

pub record Inv (c : Cluster) : Type 0 where
  pub windows : Nodes c.high_water c.epoch.number c.owner c.nodes
  pub clear : (i : ℕ) → AllOf (Clear (c.nodes i)) c.issued
  pub under : AllOf (Capped c.high_water c.epoch.number) c.issued
  pub ordered : Ordered c.issued
