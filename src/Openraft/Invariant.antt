-- ===== src/Openraft/Invariant.antt =====
-- What holds of the replicated state under every entry that carries valid keys and lease sets.
use mathlib.Core.Path.{subst}
use tsoracle.Prelude.{
  ℕ, ◌≤◌, ◌≡◌, refl, sym, ◌∙◌, true, false, not, ◌&&◌, leb, Option, none, some, List, [], ◌∷◌, ok,
  arith, All, checked_add_u64, Bool-cases, Option-cases, inl, inr,
}
use tsoracle.BTreeMap.{bytes_ord, get, insert, contains_key, len, Sorted, insert-Sorted, len-insert}
use tsoracle.Seq.{SeqKey, try_new_key}
use tsoracle.Openraft.Entries.{
  DenseAdvance, HighWaterCommand, ApplyOutcome, EntryPayload, blank, normal, membership, Entry,
  Raft,
}
use tsoracle.Openraft.Counters.{
  Counters, or_zero, bumped, advance_one, advance_batch, if_some, push,
}
use tsoracle.Openraft.Batch.{started, granted, singles, batch-singles}
use tsoracle.Openraft.Apply.{StateMachine, apply_payload, apply_command, apply_entry, apply}
use tsoracle.Openraft.Cases.{format-any, leases-any}
use tsoracle.Openraft.Codec.{is_lease_set}
use tsoracle.Openraft.Snapshot.{check_keys}

abbrev pub IsKey : DenseAdvance → Type 0
IsKey e = try_new_key e.key.bytes ≡ ok e.key

-- Counters in order, no more of them than the cap, each under a valid key.
abbrev pub IsCounters : ℕ → Counters → Type 0
IsCounters cap d = Sorted d × (len d ≤ cap) × (check_keys d ≡ ok tt)

check_keys-insert :
    (k : SeqKey) (n : ℕ) (d : Counters)
    → try_new_key k.bytes ≡ ok k
    → check_keys d ≡ ok tt
    → check_keys (insert k.bytes n d) ≡ ok tt
unfolding check_keys insert
check_keys-insert k n [] h q = ground arith
check_keys-insert k n ((j, m) ∷ d) h q = ground (arith, check_keys-insert k n d h)

insert-IsCounters :
    (cap n : ℕ) (e : DenseAdvance) (d : Counters)
    → IsKey e
    → (not (contains_key e.key.bytes d) && leb cap (len d)) ≡ false
    → IsCounters cap d
    → IsCounters cap (insert e.key.bytes n d)
insert-IsCounters cap n e d h free q = (
  insert-Sorted e.key.bytes n d q.0,
  ground (arith, len-insert e.key.bytes n d q.0),
  check_keys-insert e.key n d h q.2,
)

bumped-IsCounters :
    (cap : ℕ) (e : DenseAdvance) (d : Counters) (o : Option ℕ)
    → IsKey e
    → (not (contains_key e.key.bytes d) && leb cap (len d)) ≡ false
    → IsCounters cap d
    → IsCounters cap (bumped e.key.bytes d o).1
bumped-IsCounters cap e d none h free q = q
bumped-IsCounters cap e d (some n) h free q = insert-IsCounters cap n e d h free q

advance_one-IsCounters :
    (cap : ℕ) (e : DenseAdvance) (d : Counters)
    → IsKey e
    → IsCounters cap d
    → IsCounters cap (advance_one cap e d).1
unfolding advance_one
advance_one-IsCounters cap e d h q =
    elim (Bool-cases (not (contains_key e.key.bytes d) && leb cap (len d))) [
      | inl full ↦ rw full q
      | inr free ↦ rw free (
          bumped-IsCounters cap e d (checked_add_u64 (or_zero (get e.key.bytes d)) e.count) h free
            q)
    ]

started_counters :
    (r : ApplyOutcome × Counters) (start : ℕ) (d : Counters) → started r ≡ some (start, d) → d ≡ r.1
started_counters r start d h = ground arith

pushed :
    (n : ℕ) (o : Option (List ℕ × Counters)) (starts : List ℕ) (d : Counters)
    → push n o ≡ some (starts, d)
    → (rest : List ℕ) × (o ≡ some (rest, d))
pushed n none starts d h = cc
pushed n (some (rest, d')) starts d h = (rest, ground arith)

granted_counters :
    (r : ApplyOutcome × Counters) (starts : List ℕ) (d : Counters)
    → granted r ≡ some (starts, d)
    → d ≡ r.1
granted_counters r starts d h = ground arith

singles-IsCounters :
    (cap : ℕ) (es : List DenseAdvance) (d : Counters)
    → All IsKey es
    → IsCounters cap d
    → (starts : List ℕ) (d' : Counters) → singles cap es d ≡ some (starts, d')
    → IsCounters cap d'
unfolding singles
singles-IsCounters cap [] d h q starts d' s = subst (IsCounters cap) (ground arith) q
singles-IsCounters cap (e ∷ es) d h q starts d' s =
    go (started (advance_one cap e d)) refl s (λ d1 q1. singles-IsCounters cap es d1 h.1 q1)
  where
    go :
        (o : Option (ℕ × Counters))
        → started (advance_one cap e d) ≡ o
        → if_some o (λ one. push one.0 (singles cap es one.1)) ≡ some (starts, d')
        → ((d1 : Counters)
            → IsCounters cap d1
            → (rest : List ℕ) (d2 : Counters) → singles cap es d1 ≡ some (rest, d2)
            → IsCounters cap d2)
        → IsCounters cap d'
    go none f t more = cc
    go (some (start, d1)) f t more =
        let (rest, tail) = pushed start (singles cap es d1) starts d' t in
        more d1
          (subst (IsCounters cap) (sym (started_counters (advance_one cap e d) start d1 f))
            (advance_one-IsCounters cap e d h.0 q))
          rest d' tail

advance_batch-IsCounters :
    (cap : ℕ) (es : List DenseAdvance) (d : Counters)
    → All IsKey es
    → IsCounters cap d
    → IsCounters cap (advance_batch cap es d).1
advance_batch-IsCounters cap es d h q =
    let (same, refused) = batch-singles cap es d q.0 q.1 in
    elim (Option-cases (singles cap es d)) [
      | inl n ↦ subst (IsCounters cap) (sym (refused n)) q
      | inr ((starts, d'), s) ↦
          subst (IsCounters cap) (granted_counters (advance_batch cap es d) starts d' (same ∙ s))
            (singles-IsCounters cap es d h q starts d' s)
    ]

-- What an entry may carry: keys and lease sets that their types accept.
abbrev pub IsCommand : HighWaterCommand → Type 0
IsCommand (HighWaterCommand.advance_dense e) = IsKey e
IsCommand (HighWaterCommand.advance_dense_batch es) = All IsKey es
IsCommand (HighWaterCommand.set_leases expected_term ls) = is_lease_set ls ≡ true
IsCommand _ = Unit

abbrev pub IsPayload : {M : Type 0} → EntryPayload M → Type 0
IsPayload (normal c) = IsCommand c
IsPayload _ = Unit

abbrev pub IsEntry : {L M : Type 0} → Entry L M → Type 0
IsEntry e = IsPayload e.payload

abbrev pub IsState : {L S B : Type 0} → StateMachine L S B → Type 0
IsState s = IsCounters s.core.dense_cap s.core.dense × (is_lease_set s.core.leases ≡ true)

module _ {L M S B : Type 0} (r : Raft L M S) where
  command-IsState :
      (l : L) (c : HighWaterCommand) (s : StateMachine L S B)
      → IsCommand c
      → IsState s
      → IsState (apply_command r l c s).1
  command-IsState l (HighWaterCommand.advance p) s h q = q
  command-IsState l (HighWaterCommand.set_format_version target gated) s h q =
      format-any r IsState target gated s q q
  command-IsState l (HighWaterCommand.advance_dense e) s h q =
      (advance_one-IsCounters s.core.dense_cap e s.core.dense h q.0, q.1)
  command-IsState l (HighWaterCommand.advance_dense_batch es) s h q =
      (advance_batch-IsCounters s.core.dense_cap es s.core.dense h q.0, q.1)
  command-IsState l (HighWaterCommand.set_leases term ls) s h q =
      leases-any r IsState l term ls s q (q.0, h)

  payload-IsState :
      (l : L) (p : EntryPayload M) (s : StateMachine L S B)
      → IsPayload p
      → IsState s
      → IsState (apply_payload r l p s).1
  payload-IsState l blank s h q = q
  payload-IsState l (normal c) s h q = command-IsState l c s h q
  payload-IsState l (membership m) s h q = q

  pub entry-IsState :
      (e : Entry L M) (s : StateMachine L S B)
      → IsEntry e
      → IsState s
      → IsState (apply_entry r e s).1
  unfolding apply_entry
  entry-IsState e s h q = payload-IsState e.log_id e.payload s h q

  -- From counters that are in order, valid and within the cap, and a lease set in order: applying
  -- entries whose keys and lease sets are valid keeps all of that, whatever they ask for.
  pub apply-IsState :
      (es : List (Entry L M)) (s : StateMachine L S B)
      → All IsEntry es
      → IsState s
      → IsState (apply r es s).1
  unfolding apply
  apply-IsState [] s h q = q
  apply-IsState (e ∷ es) s h q =
      apply-IsState es (apply_entry r e s).1 h.1 (entry-IsState e s h.0 q)
