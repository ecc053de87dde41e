-- ===== src/Openraft/Proposals.antt =====
-- What an answer to a dense advance means for the replicated state.
use tsoracle.Prelude.{
  ℕ, ◌+◌, ◌≤◌, ◌<◌, not, ltb, leb, ◌&&◌, ◌≡◌, ◌⊎◌, inl, inr, refl, Option, none, some, List, Result,
  ok, err, arith, Bool-cases, u64_max, checked_add_u64,
}
use tsoracle.BTreeMap.{bytes_ord, get, get-insert, contains_key, len, same_refl}
use tsoracle.Seq.{SeqKey}
use tsoracle.Consensus.{ConsensusError}
use tsoracle.Openraft.Entries.{dense_write_version, ApplyOutcome, Entry, Raft}
use tsoracle.Openraft.Counters.{Counters, or_zero, bumped, advance_one}
use tsoracle.Openraft.Apply.{StateMachine, apply_entry, apply}
use tsoracle.Openraft.Driver.{commits, client_write, dense_start, to_entry, advance_dense}

-- A key's counter before and after, for an answer: the block starts at the counter and the counter moves
-- to its end, or no counter moves.
abbrev pub MovedBy : SeqKey → ℕ → Counters → Counters → Result ConsensusError ℕ → Type 0
MovedBy key count d d' (ok start) =
    (start ≡ or_zero (get key.bytes d))
    × (or_zero (get key.bytes d') ≡ start + count)
    × (start + count ≤ u64_max)
MovedBy key count d d' (err e) = d' ≡ d

abbrev DenseMoved : SeqKey → ℕ → Counters → ApplyOutcome × Counters → Type 0
DenseMoved key count d (outcome, d') = MovedBy key count d d' (dense_start outcome)

bumped-DenseMoved :
    (key : SeqKey) (count : ℕ) (d : Counters) (o : Option ℕ)
    → checked_add_u64 (or_zero (get key.bytes d)) count ≡ o
    → DenseMoved key count d (bumped key.bytes d o)
bumped-DenseMoved key count d none h = refl
bumped-DenseMoved key count d (some n) h =
    (refl, ground (arith, get-insert key.bytes key.bytes n d, same_refl key.bytes), ground arith)

one-DenseMoved :
    (cap : ℕ) (key : SeqKey) (count : ℕ) (d : Counters)
    → DenseMoved key count d (advance_one cap (to_entry (key, count)) d)
unfolding advance_one
one-DenseMoved cap key count d =
    elim (Bool-cases (not (contains_key key.bytes d) && leb cap (len d))) [
      | inl full ↦ rw full refl
      | inr free ↦
          rw free
            (bumped-DenseMoved key count d (checked_add_u64 (or_zero (get key.bytes d)) count) refl)
    ]

module _ {L M S B : Type 0} (r : Raft L M S) where
  abbrev pub DenseAdvanced :
      SeqKey → ℕ → StateMachine L S B → Result ConsensusError ℕ × StateMachine L S B → Type 0
  DenseAdvanced key count s (x, t) = MovedBy key count s.core.dense t.core.dense x

  -- A call that fails, and leaves the replicated state as it was.
  abbrev pub Refused : StateMachine L S B → Result ConsensusError ℕ × StateMachine L S B → Type 0
  Refused s (ok start, t) = ⊥
  Refused s (err e, t) = t ≡ s

  -- A dense advance that commits behind other entries. An answered block starts at the counter as those
  -- left it, is within the word, and moves the counter to its end. A call that fails leaves the counters
  -- as those entries left them, or, if sequences are not active yet in the format that is written, the
  -- replicated state as it was.
  pub advance_dense_lem :
      (before : List (Entry L M)) (l : L) (key : SeqKey) (count : ℕ) (s : StateMachine L S B)
      → DenseAdvanced key count
          (apply r before s).1
          (advance_dense r (commits before l) key count s)
        ⊎ ((s.active_write_version < dense_write_version)
            × Refused s (advance_dense r (commits before l) key count s))
  unfolding advance_dense client_write apply_entry
  advance_dense_lem before l key count s =
      elim (Bool-cases (ltb s.active_write_version dense_write_version)) [
        | inl early ↦ inr (ground (arith, early), rw early refl)
        | inr active ↦ rw active (
            inl (
              one-DenseMoved (apply r before s).1.core.dense_cap key count
                (apply r before s).1.core.dense))
      ]
