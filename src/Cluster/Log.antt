-- ===== src/Cluster/Log.antt =====
-- What was issued, against a change of one node.
use tsoracle.Prelude.{
  ℕ, ◌≤◌, ◌<◌, ◌≡◌, ◌==◌, false, some, List, [], ◌∷◌, Bool-cases, inl, inr, arith,
}
use tsoracle.Epoch.{Epoch}
use tsoracle.Allocator.{WindowGrant}
use tsoracle.Cluster.{Node, loaded, Cluster, update, set_node}
use tsoracle.Cluster.Invariant.{
  era, top, low, IsGood, end, begin, AllOf, Before, Clear, Capped, Inv,
}
use tsoracle.Cluster.Nodes.{Within, update-Nodes, Raises, raise-Nodes, load-Nodes, elect-Nodes}

AllOf-both :
    {P Q R : WindowGrant → Type 0}
    → ((g : WindowGrant) → P g → Q g → R g)
    → (gs : List WindowGrant) → AllOf P gs
    → AllOf Q gs
    → AllOf R gs
AllOf-both f [] p q = tt
AllOf-both f (g ∷ gs) p q = (f g p.0 q.0, AllOf-both f gs p.1 q.1)

AllOf-map :
    {P R : WindowGrant → Type 0}
    → ((g : WindowGrant) → P g → R g)
    → (gs : List WindowGrant) → AllOf P gs
    → AllOf R gs
AllOf-map {P} {R} f gs p = AllOf-both {P = P} {Q = P} {R = R} (λ g a b. f g a) gs p p

-- To say something of every node after a change is to say it of the changed one and of the others.
at_update :
    (P : Node → Type 0) (nodes : ℕ → Node) (i : ℕ) (n : Node) (j : ℕ)
    → P n
    → ((j == i) ≡ false → P (nodes j))
    → P (update nodes i n j)
at_update P nodes i n j p q = elim (Bool-cases (j == i)) [
  | inl here ↦ rw here p
  | inr there ↦ rw there (q there)
]

within-Clear : (n n' : Node) (g : WindowGrant) → Within n n' → Clear n g → Clear n' g
within-Clear n n' g w k e p = ground (arith, k e, w.same_era e, w.lower_top, w.higher_low e)

pub update-Inv :
    (c : Cluster) (i : ℕ) (n : Node) → Inv c → Within (c.nodes i) n → Inv (set_node i n c)
update-Inv c i n v w = record {
  windows = update-Nodes c.high_water c.epoch.number c.owner c.nodes i n v.windows w;
  clear = λ j.
      at_update (λ m. AllOf (Clear m) c.issued) c.nodes i n j
        (AllOf-map {P = Clear (c.nodes i)} {R = Clear n} (λ g. within-Clear (c.nodes i) n g w)
          c.issued (v.clear i))
        (λ _. v.clear j);
  under = v.under;
  ordered = v.ordered;
}

raises-Clear :
    (h e h' : ℕ) (n n' : Node) (g : WindowGrant)
    → Raises h' e n n'
    → Clear n g
    → Capped h e g
    → Clear n' g
raises-Clear h e h' n n' g w k u x p =
    ground (arith, k x, k e, w.era_before, w.era_after, w.higher_low)

higher-Capped : (h h' e : ℕ) (g : WindowGrant) → h ≤ h' → Capped h e g → Capped h' e g
higher-Capped h h' e g l u = omega (arith, u)

pub raise-Inv :
    (c : Cluster) (i h' : ℕ) (n : Node)
    → Inv c
    → c.high_water ≤ h'
    → Raises h' c.epoch.number (c.nodes i) n
    → Inv (set_node i n (record c { high_water = h' }))
raise-Inv c i h' n v l w = record {
  windows = raise-Nodes c.high_water h' c.epoch.number c.owner c.nodes i n v.windows l w;
  clear = λ j.
      at_update (λ m. AllOf (Clear m) c.issued) c.nodes i n j
        (AllOf-both {P = Clear (c.nodes i)} {Q = Capped c.high_water c.epoch.number} {R = Clear n}
          (λ g. raises-Clear c.high_water c.epoch.number h' (c.nodes i) n g w) c.issued (v.clear i)
          v.under)
        (λ _. v.clear j);
  under =
      AllOf-map {P = Capped c.high_water c.epoch.number} {R = Capped h' c.epoch.number}
        (λ g. higher-Capped c.high_water h' c.epoch.number g l) c.issued v.under;
  ordered = v.ordered;
}

loaded-Clear : (h : ℕ) (e : Epoch) (g : WindowGrant) → Capped h e.number g → Clear (loaded e h) g
loaded-Clear h e g u x p = ground (arith, u)

pub load-Inv : (c : Cluster) → Inv c → Inv (set_node c.owner (loaded c.epoch c.high_water) c)
load-Inv c v = record {
  windows = load-Nodes c.high_water c.owner c.epoch c.nodes v.windows;
  clear = λ j.
      at_update (λ m. AllOf (Clear m) c.issued) c.nodes c.owner (loaded c.epoch c.high_water) j
        (AllOf-map {P = Capped c.high_water c.epoch.number}
          {R = Clear (loaded c.epoch c.high_water)} (loaded-Clear c.high_water c.epoch) c.issued
          v.under)
        (λ _. v.clear j);
  under = v.under;
  ordered = v.ordered;
}

pub elect-Inv :
    (c : Cluster) (i : ℕ) (e : Epoch)
    → Inv c
    → c.epoch.number < e.number
    → Inv (record c { epoch = e; owner = i })
elect-Inv c i e v l = record {
  windows = elect-Nodes c.high_water c.epoch.number e.number c.owner i c.nodes v.windows l;
  clear = v.clear;
  under =
      AllOf-map {P = Capped c.high_water c.epoch.number} {R = Capped c.high_water e.number}
        (λ g u. (u.0, omega (arith, u.1))) c.issued v.under;
  ordered = v.ordered;
}

-- A node issues a block: it lies between where its cursor was and where it is now.
pub record Issues (n n' : Node) (g : WindowGrant) : Type 0 where
  pub good : IsGood n'
  pub era_before : era n ≡ some g.epoch.number
  pub era_after : era n' ≡ some g.epoch.number
  pub same_top : top n' ≡ top n
  pub from_low : low n ≤ begin g
  pub to_low : end g ≤ low n'
  pub below_top : end g ≤ top n

issued_all-Within : (n n' : Node) (g : WindowGrant) → Issues n n' g → Within n n'
issued_all-Within n n' g w = record {
  good = w.good;
  same_era = λ x p. ground (arith, w.era_before, w.era_after);
  lower_top = omega (arith, w.same_top);
  higher_low = λ x p. omega (arith, w.from_low, w.to_low);
}

pub issue-Inv :
    (c : Cluster) (i : ℕ) (n : Node) (g : WindowGrant)
    → Inv c
    → Issues (c.nodes i) n g
    → Inv (set_node i n (record c { issued = g ∷ c.issued }))
issue-Inv c i n g v w = record {
  windows = rest.windows;
  clear = λ j. (at_update (λ m. Clear m g) c.nodes i n j own (others j), rest.clear j);
  under = (
    (
      omega (arith, w.below_top, v.windows.capped i),
      v.windows.reached i g.epoch.number w.era_before,
    ),
    v.under,
  );
  ordered =
      (AllOf-map {P = Clear (c.nodes i)} {R = Before g} earlier c.issued (v.clear i), v.ordered);
}
  where
    rest : Inv (set_node i n c)
    rest = update-Inv c i n v (issued_all-Within (c.nodes i) n g w)

    own : Clear n g
    own x p = ground (arith, w.era_after, w.to_low, w.era_before)

    others : (j : ℕ) → (j == i) ≡ false → Clear (c.nodes j) g
    others j there y p = ground (
      arith,
      v.windows.apart i j g.epoch.number y,
      v.windows.apart j i y g.epoch.number,
      v.windows.alone j i y,
      w.era_before,
      w.below_top,
      w.from_low,
    )

    earlier : (h : WindowGrant) → Clear (c.nodes i) h → Before g h
    earlier h k = ground (arith, k g.epoch.number, w.era_before, w.from_low, w.below_top)
