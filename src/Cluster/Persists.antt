-- ===== src/Cluster/Persists.antt =====
-- A node's own changes, and what it persists, keep the invariant.
use mathlib.Core.Path.{subst}
use tsoracle.Prelude.{
  ℕ, ◌+◌, ◌≤◌, ◌≡◌, refl, max, ltb, Bool, Option, none, some, Result, ok, err, Bool-cases, inl, inr,
  arith, saturating_add_u64,
}
use tsoracle.Timestamp.{physical_ms_max}
use tsoracle.Epoch.{Epoch}
use tsoracle.CoreError.{CoreError, PhysicalMs, try_new_ms}
use tsoracle.Allocator.{
  Leader, leader, become_leader, try_commit_window_extension, try_prepare_window_extension,
}
use tsoracle.Allocator.Invariant.{IsSound, position}
use tsoracle.Consensus.{merge, reject_out_of_range_advance}
use tsoracle.Server.Fence.{serving_floor_of}
use tsoracle.Cluster.{
  Node, off, loaded, raised, led, extending, Cluster, seeded, published, committed, lost, persist,
  fence_from, extended, extend_from, IsFenced,
}
use tsoracle.Cluster.Invariant.{top, IsGood, Inv}
use tsoracle.Cluster.Nodes.{Within, Raises}
use tsoracle.Cluster.Log.{update-Inv, raise-Inv}

pub off-Within : (n : Node) → Within n off
off-Within n = record {
  good = tt;
  same_era = λ x p. cc;
  lower_top = omega arith;
  higher_low = λ x p. cc;
}

same-Within : (n : Node) → IsGood n → Within n n
same-Within n g = record {
  good = g;
  same_era = λ x p. p;
  lower_top = omega arith;
  higher_low = λ x p. omega arith;
}

seeded-Within : (e : Epoch) (f a : ℕ) → Within (raised e f a) (seeded e f a)
unfolding seeded try_new_ms become_leader
seeded-Within e f a = record {
  good = ground arith;
  same_era = λ x p. ground arith;
  lower_top = ground arith;
  higher_low = λ x p. ground arith;
}

committed-Within :
    (l : Leader) (a : ℕ) → IsSound l → Within (extending l a) (committed (extending l a))
unfolding committed try_new_ms try_commit_window_extension
committed-Within l a s = record {
  good = ground arith;
  same_era = λ x p. ground arith;
  lower_top = ground arith;
  higher_low = λ x p. ground arith;
}

pub lost-Within : (n : Node) → IsGood n → Within n (lost n)
unfolding lost
lost-Within off g = same-Within off g
lost-Within (loaded e p) g = same-Within (loaded e p) g
lost-Within (raised e f a) g = off-Within (raised e f a)
lost-Within (led l) g = same-Within (led l) g
lost-Within (extending l a) g = record {
  good = g;
  same_era = λ x p. p;
  lower_top = ground arith;
  higher_low = λ x p. omega arith;
}

pub published-Within : (n : Node) → IsGood n → Within n (published n)
unfolding published
published-Within off g = same-Within off g
published-Within (loaded e p) g = same-Within (loaded e p) g
published-Within (raised e f a) g = seeded-Within e f a
published-Within (led l) g = same-Within (led l) g
published-Within (extending l a) g = same-Within (extending l a) g

pub commit-Within : (n : Node) → IsGood n → Within n (committed n)
unfolding committed
commit-Within off g = same-Within off g
commit-Within (loaded e p) g = same-Within (loaded e p) g
commit-Within (raised e f a) g = same-Within (raised e f a) g
commit-Within (led l) g = same-Within (led l) g
commit-Within (extending l a) g = committed-Within l a g

-- What the node becomes when its persist is answered by `actual`.
abbrev Answered : Epoch → ℕ → ℕ → Node → (ℕ → Node) → Type 0
Answered e h requested n answered =
    (actual : ℕ)
    → requested ≤ actual
    → h ≤ actual
    → requested ≤ physical_ms_max
    → Raises actual e.number n (answered actual)

-- What a fence and an extension of a node persist for.
abbrev pub fencing : ℕ → Node → Option (ℕ × Epoch)
fencing i n = elim n [ loaded e prior ↦ some (i, e) | _ ↦ none ]

abbrev pub extending_by : ℕ → Node → Option (ℕ × Epoch)
extending_by i n = elim n [ led l ↦ some (i, l.epoch) | _ ↦ none ]

module _ (accepts : ℕ → Epoch → Cluster → Bool) where
  persist-Inv :
      (c : Cluster) (i requested : ℕ) (e : Epoch) (answered : ℕ → Node)
      → Inv c
      → IsFenced accepts (some (i, e)) c
      → Answered e c.high_water requested (c.nodes i) answered
      → Inv (persist accepts i e requested answered c)
  unfolding persist merge reject_out_of_range_advance
  persist-Inv c i requested e answered v f k = elim (Bool-cases (accepts i e c)) [
    | inl yes_it_is ↦ elim (Bool-cases (ltb physical_ms_max requested)) [
      | inl high ↦ rw (yes_it_is, high) (update-Inv c i off v (off-Within (c.nodes i)))
      | inr fits ↦
          rw (yes_it_is, fits)
            (raise-Inv c i (max c.high_water requested) (answered (max c.high_water requested)) v
              (omega arith)
              (now_current
                (k (max c.high_water requested) (omega arith) (omega arith) (ground arith))
                (f yes_it_is)))
    ]
    | inr refused ↦ rw refused (update-Inv c i off v (off-Within (c.nodes i)))
  ]
    where
      now_current :
          {h : ℕ} {n' : Node}
          → Raises h e.number (c.nodes i) n'
          → e.number ≡ c.epoch.number
          → Raises h c.epoch.number (c.nodes i) n'
      now_current r q = record {
        good = r.good;
        era_before = ground (arith, r.era_before);
        era_after = ground (arith, r.era_after);
        new_top = r.new_top;
        higher_low = r.higher_low;
      }

  pub fence_from-Inv :
      (c : Cluster) (i now advance : ℕ) (n : Node)
      → Inv c
      → c.nodes i ≡ n
      → IsFenced accepts (fencing i n) c
      → Inv (fence_from accepts i now advance n c)
  unfolding fence_from
  fence_from-Inv c i now advance (loaded e p) v q f =
      persist-Inv c i (saturating_add_u64 (serving_floor_of p now) advance) e
        (raised e (serving_floor_of p now)) v f
        λ a ha hh hm. record {
          good = tt;
          era_before = rw q refl;
          era_after = refl;
          new_top = omega arith;
          higher_low = rw q (ground arith);
        }
  fence_from-Inv c i now advance off v q f = v
  fence_from-Inv c i now advance (raised e g a) v q f = v
  fence_from-Inv c i now advance (led l) v q f = v
  fence_from-Inv c i now advance (extending l a) v q f = v

  extended-Inv :
      (c : Cluster) (i : ℕ) (l : Leader) (r : Result CoreError PhysicalMs)
      → Inv c
      → c.nodes i ≡ led l
      → IsFenced accepts (some (i, l.epoch)) c
      → Inv (extended accepts i l r c)
  unfolding extended
  extended-Inv c i l (err x) v q f = v
  extended-Inv c i l (ok requested) v q f =
      persist-Inv c i requested.get l.epoch (extending l) v f λ a ha hh hm.
        let good : IsGood (led l) = subst IsGood q (v.windows.good i) in
        let under : top (led l) ≤ position (c.high_water + 1) 0 =
          subst (λ m. top m ≤ position (c.high_water + 1) 0) q (v.windows.capped i) in
        record {
          good = good;
          era_before = rw q refl;
          era_after = refl;
          new_top = omega (arith, under);
          higher_low = rw q (omega arith);
        }

  pub extend_from-Inv :
      (c : Cluster) (i ahead : ℕ) (now : PhysicalMs) (n : Node)
      → Inv c
      → c.nodes i ≡ n
      → IsFenced accepts (extending_by i n) c
      → Inv (extend_from accepts i now ahead n c)
  unfolding extend_from
  extend_from-Inv c i ahead now (led l) v q f =
      extended-Inv c i l (try_prepare_window_extension (leader l) now ahead) v q f
  extend_from-Inv c i ahead now off v q f = v
  extend_from-Inv c i ahead now (raised e g a) v q f = v
  extend_from-Inv c i ahead now (loaded e p) v q f = v
  extend_from-Inv c i ahead now (extending l a) v q f = v
