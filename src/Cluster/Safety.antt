-- ===== src/Cluster/Safety.antt =====
-- What holds after any sequence of moves: of the blocks that were issued, and of the leaders.
use tsoracle.Prelude.{ℕ, ◌+◌, ◌≤◌, ◌<◌, ◌≡◌, Bool, true, Option, none, some, List, [], ◌∷◌, arith}
use tsoracle.Allocator.{Leader}
use tsoracle.Epoch.{Epoch}
use tsoracle.Allocator.Invariant.{position}
use tsoracle.Cluster.{led, Cluster, start, Move, step, run, persisted_by, IsFenced, Fenced}
use tsoracle.Cluster.Invariant.{Inv, Ordered}
use tsoracle.Cluster.Steps.{step-Inv}

start-Inv : Inv start
start-Inv = record {
  windows = record {
    good = λ i. tt;
    capped = λ i. omega arith;
    reached = λ i x p. cc;
    owned = λ i p. cc;
    alone = λ i j x p q. cc;
    apart = λ i j x y p q l. cc;
  };
  clear = λ i. tt;
  under = tt;
  ordered = tt;
}

-- A backend that compares the epoch with its own as it accepts a persist fences every run.
pub precheck-Fenced :
    (accepts : ℕ → Epoch → Cluster → Bool)
    → ((i : ℕ) (e : Epoch) (c : Cluster) → accepts i e c ≡ true → e.number ≡ c.epoch.number)
    → (ms : List Move) (c : Cluster) → Fenced accepts ms c
unfolding Fenced
precheck-Fenced accepts h [] c = tt
precheck-Fenced accepts h (m ∷ ms) c =
    (go (persisted_by m c), precheck-Fenced accepts h ms (step accepts m c))
  where
    go : (o : Option (ℕ × Epoch)) → IsFenced accepts o c
    go none = tt
    go (some (i, e)) = h i e c

module _ (accepts : ℕ → Epoch → Cluster → Bool) where
  run-Inv : (ms : List Move) (c : Cluster) → Inv c → Fenced accepts ms c → Inv (run accepts ms c)
  unfolding run Fenced
  run-Inv [] c v f = v
  run-Inv (m ∷ ms) c v (f, fs) = run-Inv ms (step accepts m c) (step-Inv accepts m c v f) fs

  -- Timestamps across failovers. Over any interleaving of elections, step-downs, fences that stop at
  -- any point, window extensions whose answer is late or lost, and grants on any node with any clocks,
  -- from an empty backend, in which the backend accepts no persist of an epoch other than the current
  -- one: of two blocks that were issued the one of the lower epoch lies entirely below the other, and
  -- of two of one epoch the one that was issued first. So no timestamp is issued twice, and one
  -- epoch's timestamps are never below an earlier one's. A backend that compares the epoch as it
  -- accepts a persist meets the condition in every run; one that ignores the epoch and accepts what
  -- comes from the leader, in the runs in which no node that is elected again persists with its
  -- earlier epoch.
  pub run-Ordered :
      (ms : List Move) → Fenced accepts ms start → Ordered (run accepts ms start).issued
  run-Ordered ms f = (run-Inv ms start start-Inv f).ordered

  -- A leader that was overtaken can do no harm: in every state that such a run reaches, where the
  -- backend accepts no persist of an epoch other than the current one, of two nodes that lead
  -- different epochs the whole window of the lower one, to the end of its last millisecond, lies
  -- below the cursor of the higher one.
  pub run-apart :
      (ms : List Move) (i j : ℕ) (l k : Leader)
      → Fenced accepts ms start
      → (run accepts ms start).nodes i ≡ led l
      → (run accepts ms start).nodes j ≡ led k
      → l.epoch.number < k.epoch.number
      → position (l.committed_high_water + 1) 0 ≤ position k.next_physical_ms k.next_logical
  run-apart ms i j l k f p q h =
      let inv = run-Inv ms start start-Inv f in
      ground (arith, p, q, inv.windows.apart i j l.epoch.number k.epoch.number)
