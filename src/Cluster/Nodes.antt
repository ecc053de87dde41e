-- ===== src/Cluster/Nodes.antt =====
-- One node changes: what keeps the windows in place.
use tsoracle.Prelude.{ℕ, ◌+◌, ◌≤◌, ◌<◌, ◌≡◌, some, arith}
use tsoracle.Epoch.{Epoch}
use tsoracle.Allocator.Invariant.{position}
use tsoracle.Cluster.{Node, loaded, update}
use tsoracle.Cluster.Invariant.{era, top, low, IsGood, Nodes}

-- The node `n'` in place of `n` says no more than `n` did.
pub record Within (n n' : Node) : Type 0 where
  pub good : IsGood n'
  pub same_era : (x : ℕ) → era n' ≡ some x → era n ≡ some x
  pub lower_top : top n' ≤ top n
  pub higher_low : (x : ℕ) → era n' ≡ some x → low n ≤ low n'

pub update-Nodes :
    (h e o : ℕ) (nodes : ℕ → Node) (i : ℕ) (n : Node)
    → Nodes h e o nodes
    → Within (nodes i) n
    → Nodes h e o (update nodes i n)
update-Nodes h e o nodes i n v w = record {
  good = λ j. ground (arith, v.good j, w.good);
  capped = λ j. ground (arith, v.capped j, v.capped i, w.lower_top);
  reached = λ j x p. ground (arith, v.reached j x, v.reached i x, w.same_era x);
  owned = λ j p. ground (arith, v.owned j, v.owned i, w.same_era e);
  alone = λ j k x p q. ground (arith, v.alone j k x, v.alone i k x, v.alone j i x, w.same_era x);
  apart = λ j k x y p q l. ground (
    arith,
    v.apart j k x y,
    v.apart i k x y,
    v.apart j i x y,
    v.apart i i x y,
    w.same_era x,
    w.same_era y,
    w.lower_top,
    w.higher_low y,
  );
}

-- The owner of the current epoch moves: its top is the backend's new high-water.
pub record Raises (h' e : ℕ) (n n' : Node) : Type 0 where
  pub good : IsGood n'
  pub era_before : era n ≡ some e
  pub era_after : era n' ≡ some e
  pub new_top : top n' ≤ position (h' + 1) 0
  pub higher_low : low n ≤ low n'

pub raise-Nodes :
    (h h' e o : ℕ) (nodes : ℕ → Node) (i : ℕ) (n : Node)
    → Nodes h e o nodes
    → h ≤ h'
    → Raises h' e (nodes i) n
    → Nodes h' e o (update nodes i n)
raise-Nodes h h' e o nodes i n v r w = record {
  good = λ j. ground (arith, v.good j, w.good);
  capped = λ j. ground (arith, v.capped j, w.new_top);
  reached = λ j x p. ground (arith, v.reached j x, v.reached i x, w.era_before, w.era_after);
  owned = λ j p. ground (arith, v.owned j, v.owned i, w.era_before, w.era_after);
  alone = λ j k x p q.
      ground (arith, v.alone j k x, v.alone i k x, v.alone j i x, w.era_before, w.era_after);
  apart = λ j k x y p q l. ground (
    arith,
    v.apart j k x y,
    v.apart j i x y,
    v.reached k y,
    w.era_before,
    w.era_after,
    w.higher_low,
  );
}

-- The owner of the current epoch loads the high-water.
pub load-Nodes :
    (h o : ℕ) (e : Epoch) (nodes : ℕ → Node)
    → Nodes h e.number o nodes
    → Nodes h e.number o (update nodes o (loaded e h))
load-Nodes h o e nodes v = record {
  good = λ j. ground (arith, v.good j);
  capped = λ j. ground (arith, v.capped j);
  reached = λ j x p. ground (arith, v.reached j x);
  owned = λ j p. ground (arith, v.owned j);
  alone = λ j k x p q. ground (arith, v.alone j k x, v.owned j, v.owned k);
  apart = λ j k x y p q l. ground (arith, v.apart j k x y, v.capped j, v.reached k y);
}

-- A new epoch: no node acts for it yet.
pub elect-Nodes :
    (h e e' o o' : ℕ) (nodes : ℕ → Node) → Nodes h e o nodes → e < e' → Nodes h e' o' nodes
elect-Nodes h e e' o o' nodes v l = record {
  good = v.good;
  capped = v.capped;
  reached = λ j x p. ground (arith, v.reached j x);
  owned = λ j p. ground (arith, v.reached j e');
  alone = v.alone;
  apart = v.apart;
}
