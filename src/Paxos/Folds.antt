-- ===== src/Paxos/Folds.antt =====
-- What the fold of a log comes to: the highest advance, and per node the highest barrier.
use tsoracle.Prelude.{ℕ, max, ◌≡◌, refl, List, [], ◌∷◌, ◌++◌, map, All, arith}
use tsoracle.BTreeMap.{nat_ord, get, Sorted}
use tsoracle.Consensus.{merge}
use tsoracle.Paxos.{
  HighWaterCommand, HighWaterSnapshot, fold_command, create_from, create, LogEntry, decided,
  undecided, snapshotted, trimmed, stop_sign, ApplyState, drain_entry, drain_entries, barrier_of,
  applied_barrier_seq,
}
use tsoracle.Paxos.Ledger.{seq_of, seq-raise_slot, raise_slot-Sorted, seq-merge_barriers}

-- The ledger of a snapshot in the log is a map.
abbrev pub IsLogged : LogEntry → Type 0
IsLogged (snapshotted p) = Sorted p.applied_barriers
IsLogged _ = Unit

abbrev pub advance_of : HighWaterCommand → ℕ
advance_of (HighWaterCommand.advance p) = p.at_least
advance_of (HighWaterCommand.barrier node seq) = 0

abbrev pub value_of : LogEntry → ℕ
value_of (decided c) = advance_of c
value_of (snapshotted p) = p.value
value_of _ = 0

abbrev pub applied_of : ℕ → LogEntry → ℕ
applied_of j (decided c) = barrier_of j c
applied_of j (snapshotted p) = seq_of j p.applied_barriers
applied_of j _ = 0

abbrev pub highest : {A : Type 0} → (A → ℕ) → List A → ℕ
highest f [] = 0
highest f (e ∷ es) = max (f e) (highest f es)

entry_value :
    (e : LogEntry) (s : ApplyState) → (drain_entry e s).high_water ≡ max s.high_water (value_of e)
unfolding drain_entry merge
entry_value (decided (HighWaterCommand.advance p)) s = ground arith
entry_value (decided (HighWaterCommand.barrier node seq)) s = ground arith
entry_value (snapshotted p) s = ground arith
entry_value (undecided c) s = ground arith
entry_value trimmed s = ground arith
entry_value stop_sign s = ground arith

entry_seq :
    (j : ℕ) (e : LogEntry) (s : ApplyState)
    → IsLogged e
    → applied_barrier_seq j (drain_entry e s) ≡ max (applied_barrier_seq j s) (applied_of j e)
unfolding drain_entry applied_barrier_seq
entry_seq j (decided (HighWaterCommand.advance p)) s h = ground arith
entry_seq j (decided (HighWaterCommand.barrier node seq)) s h =
    seq-raise_slot j node seq s.applied_barriers
entry_seq j (snapshotted p) s h = seq-merge_barriers j s.applied_barriers p.applied_barriers h
entry_seq j (undecided c) s h = ground arith
entry_seq j trimmed s h = ground arith
entry_seq j stop_sign s h = ground arith

pub drain_value :
    (es : List LogEntry) (s : ApplyState)
    → (drain_entries es s).high_water ≡ max s.high_water (highest value_of es)
unfolding drain_entries
drain_value [] s = ground arith
drain_value (e ∷ es) s = ground (arith, drain_value es (drain_entry e s), entry_value e s)

pub drain_seq :
    (j : ℕ) (es : List LogEntry) (s : ApplyState)
    → All IsLogged es
    → applied_barrier_seq j (drain_entries es s)
      ≡ max (applied_barrier_seq j s) (highest (applied_of j) es)
unfolding drain_entries
drain_seq j [] s h = ground arith
drain_seq j (e ∷ es) s h = ground (arith, drain_seq j es (drain_entry e s) h.1, entry_seq j e s h.0)

create_value :
    (cs : List HighWaterCommand) (s : HighWaterSnapshot)
    → (create_from s cs).value ≡ max s.value (highest advance_of cs)
unfolding create_from fold_command merge
create_value [] s = ground arith
create_value (HighWaterCommand.advance p ∷ cs) s =
    ground (arith, create_value cs (fold_command (HighWaterCommand.advance p) s))
create_value (HighWaterCommand.barrier node seq ∷ cs) s =
    ground (arith, create_value cs (fold_command (HighWaterCommand.barrier node seq) s))

create_seq :
    (j : ℕ) (cs : List HighWaterCommand) (s : HighWaterSnapshot)
    → seq_of j (create_from s cs).applied_barriers
      ≡ max (seq_of j s.applied_barriers) (highest (barrier_of j) cs)
unfolding create_from fold_command
create_seq j [] s = ground arith
create_seq j (HighWaterCommand.advance p ∷ cs) s =
    ground (arith, create_seq j cs (fold_command (HighWaterCommand.advance p) s))
create_seq j (HighWaterCommand.barrier node seq ∷ cs) s = ground (
  arith,
  create_seq j cs (fold_command (HighWaterCommand.barrier node seq) s),
  seq-raise_slot j node seq s.applied_barriers,
)

create_from-Sorted :
    (cs : List HighWaterCommand) (s : HighWaterSnapshot)
    → Sorted s.applied_barriers
    → Sorted (create_from s cs).applied_barriers
unfolding create_from fold_command
create_from-Sorted [] s h = h
create_from-Sorted (HighWaterCommand.advance p ∷ cs) s h =
    create_from-Sorted cs (fold_command (HighWaterCommand.advance p) s) h
create_from-Sorted (HighWaterCommand.barrier node seq ∷ cs) s h =
    create_from-Sorted cs (fold_command (HighWaterCommand.barrier node seq) s)
      (raise_slot-Sorted node seq s.applied_barriers h)

highest-map :
    (f : LogEntry → ℕ) (g : HighWaterCommand → ℕ) (cs : List HighWaterCommand)
    → ((c : HighWaterCommand) → f (decided c) ≡ g c)
    → highest f (map decided cs) ≡ highest g cs
highest-map f g [] h = refl
highest-map f g (c ∷ cs) h = ground (arith, highest-map f g cs h, h c)

-- A snapshot says of a log what its entries say.
pub created :
    (cs : List HighWaterCommand)
    → (value_of (snapshotted (create cs)) ≡ highest value_of (map decided cs))
      × ((j : ℕ) → applied_of j (snapshotted (create cs)) ≡ highest (applied_of j) (map decided cs))
      × IsLogged (snapshotted (create cs))
unfolding create get
created cs = (
  ground (
    arith,
    create_value cs (record { value = 0; applied_barriers = [] }),
    highest-map value_of advance_of cs (λ c. refl),
  ),
  λ j. ground (
    arith,
    create_seq j cs (record { value = 0; applied_barriers = [] }),
    highest-map (applied_of j) (barrier_of j) cs (λ c. refl),
  ),
  create_from-Sorted cs (record { value = 0; applied_barriers = [] }) tt,
)

pub highest-append :
    {A : Type 0} (f : A → ℕ) (xs ys : List A)
    → highest f (xs ++ ys) ≡ max (highest f xs) (highest f ys)
highest-append f [] ys = ground arith
highest-append f (x ∷ xs) ys = ground (arith, highest-append f xs ys)
