-- ===== src/Paxos/Ledger.antt =====
-- The barrier that a ledger has of a node, after each change.
use tsoracle.Prelude.{ℕ, ltb, max, ◌==◌, ◌≡◌, if◌then◌else◌, [], ◌∷◌, arith}
use tsoracle.BTreeMap.{nat_ord, get, get-insert, Sorted, Above-Sorted, get-Above, insert-Sorted}
use tsoracle.Paxos.{Barriers, or_zero, raise_slot, merge_barriers}

abbrev pub seq_of : ℕ → Barriers → ℕ
seq_of node ledger = or_zero (get node ledger)

pub seq-raise_slot :
    (j node seq : ℕ) (m : Barriers)
    → seq_of j (raise_slot node seq m) ≡ max (seq_of j m) (if node == j then seq else 0)
unfolding raise_slot
seq-raise_slot j node seq m =
    ground (arith, get-insert j node (if ltb (seq_of node m) seq then seq else seq_of node m) m)

pub raise_slot-Sorted : (node seq : ℕ) (m : Barriers) → Sorted m → Sorted (raise_slot node seq m)
unfolding raise_slot
raise_slot-Sorted node seq m h =
    insert-Sorted node (if ltb (seq_of node m) seq then seq else seq_of node m) m h

pub seq-merge_barriers :
    (j : ℕ) (m other : Barriers)
    → Sorted other
    → seq_of j (merge_barriers m other) ≡ max (seq_of j m) (seq_of j other)
unfolding merge_barriers get
seq-merge_barriers j m [] h = ground arith
seq-merge_barriers j m ((node, seq) ∷ other) h = ground (
  arith,
  seq-merge_barriers j (raise_slot node seq m) other (Above-Sorted node other h),
  seq-raise_slot j node seq m,
  get-Above node other h,
)
