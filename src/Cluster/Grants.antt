-- ===== src/Cluster/Grants.antt =====
-- A grant on any node keeps the invariant.
use mathlib.Core.Path.{subst}
use tsoracle.Prelude.{ℕ, ◌≡◌, sym, Result, ok, err, arith}
use tsoracle.CoreError.{CoreError}
use tsoracle.Allocator.{Allocator, Leader, leader, not_leader, WindowGrant, try_grant}
use tsoracle.Allocator.Invariant.{IsSound, IsValid, try_grant-IsValid}
use tsoracle.Allocator.Grants.{Answers, try_grant-Answers}
use tsoracle.Cluster.{Node, off, loaded, raised, led, extending, Cluster, granted, grant_from}
use tsoracle.Cluster.Invariant.{IsGood, Inv}
use tsoracle.Cluster.Log.{Issues, issue-Inv}

-- A granted block lies between the cursors, and within the window.
led-Issues :
    (l l' : Leader) (g : WindowGrant) (now count : ℕ)
    → IsSound l
    → IsSound l'
    → Answers l now count (ok g, leader l')
    → Issues (led l) (led l') g
led-Issues l l' g now count s s' a = record {
  good = s';
  era_before = ground (arith, a);
  era_after = ground (arith, a);
  same_top = ground (arith, a);
  from_low = ground (arith, a);
  to_low = ground (arith, a);
  below_top = ground (arith, a);
}

extending-Issues :
    (l l' : Leader) (g : WindowGrant) (x : ℕ)
    → l'.committed_high_water ≡ l.committed_high_water
    → Issues (led l) (led l') g
    → Issues (extending l x) (extending l' x) g
extending-Issues l l' g x m w = record {
  good = w.good;
  era_before = w.era_before;
  era_after = w.era_after;
  same_top = ground arith;
  from_low = w.from_low;
  to_low = w.to_low;
  below_top = ground (arith, w.below_top);
}

granted-Inv :
    (c : Cluster) (i now count : ℕ) (l : Leader) (r : Result CoreError WindowGrant × Allocator)
    → Inv c
    → c.nodes i ≡ led l
    → IsValid r.1
    → Answers l now count r
    → Inv (granted i led r c)
granted-Inv c i now count l (ok g, leader l') v q s' a = issue-Inv c i (led l') g v (
    subst (λ m. Issues m (led l') g) (sym q)
      (led-Issues l l' g now count (subst IsGood q (v.windows.good i)) s' a))
granted-Inv c i now count l (ok g, not_leader) v q s' a = v
granted-Inv c i now count l (err e, x) v q s' a = v

granted_extending-Inv :
    (c : Cluster) (i now count x : ℕ) (l : Leader) (r : Result CoreError WindowGrant × Allocator)
    → Inv c
    → c.nodes i ≡ extending l x
    → IsValid r.1
    → Answers l now count r
    → Inv (granted i (λ l'. extending l' x) r c)
granted_extending-Inv c i now count x l (ok g, leader l') v q s' a =
    issue-Inv c i (extending l' x) g v (
      subst (λ m. Issues m (extending l' x) g) (sym q)
        (extending-Issues l l' g x (ground (arith, a))
          (led-Issues l l' g now count (subst IsGood q (v.windows.good i)) s' a)))
granted_extending-Inv c i now count x l (ok g, not_leader) v q s' a = v
granted_extending-Inv c i now count x l (err e, y) v q s' a = v

pub grant_from-Inv :
    (c : Cluster) (i now count : ℕ) (n : Node)
    → Inv c
    → c.nodes i ≡ n
    → Inv (grant_from i now count n c)
grant_from-Inv c i now count (led l) v q =
    let s : IsSound l = subst IsGood q (v.windows.good i) in
    granted-Inv c i now count l (try_grant (leader l) now count) v q
      (try_grant-IsValid (leader l) now count s) (try_grant-Answers l now count s)
grant_from-Inv c i now count (extending l x) v q =
    let s : IsSound l = subst IsGood q (v.windows.good i) in
    granted_extending-Inv c i now count x l (try_grant (leader l) now count) v q
      (try_grant-IsValid (leader l) now count s) (try_grant-Answers l now count s)
grant_from-Inv c i now count off v q = v
grant_from-Inv c i now count (loaded e p) v q = v
grant_from-Inv c i now count (raised e f a) v q = v
