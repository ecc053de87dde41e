-- ===== src/Openraft/LeaseProposals.antt =====
-- What an answer to a proposed lease set means for the replicated state.
use tsoracle.Prelude.{
  Bool, true, false, ltb, leb, ◌==◌, ◌&&◌, ◌≡◌, ◌≢◌, ◌⊎◌, inl, inr, refl, ap, ◌∙◌, List, [], ◌∷◌,
  Result, ok, err, arith, Bool-cases, u64_max,
}
use tsoracle.BTreeMap.{bytes_ord}
use tsoracle.Epoch.{Epoch}
use tsoracle.Lease.{LeaseRecord}
use tsoracle.Consensus.{ConsensusError}
use tsoracle.Openraft.Entries.{lease_write_version, LeaseSet, Entry, Raft}
use tsoracle.Openraft.Apply.{StateMachine, apply_entry, apply}
use tsoracle.Openraft.Codec.{is_lease_set, has_holder_len}
use tsoracle.Openraft.Driver.{
  LeaseSetError, have_holder_len, insert_by_id, sort_by_id, is_ordered, from_records, commits,
  client_write, classify_set_leases_outcome, submit_set_leases, persist_leases,
}

and_swap : (a b c : Bool) → (a && (b && c)) ≡ (b && (a && c))
and_swap true true c = refl
and_swap true false c = refl
and_swap false true c = refl
and_swap false false c = refl

-- A lease set that is canonical passes the checks of reading it back.
holders-insert :
    (l : LeaseRecord) (ls : LeaseSet)
    → have_holder_len (insert_by_id l ls) ≡ (has_holder_len l && have_holder_len ls)
holders-insert l [] = refl
holders-insert l (k ∷ ls) = elim (Bool-cases (leb l.lease_id k.lease_id)) [
  | inl first ↦ rw first refl
  | inr later ↦ rw later (
      ap (λ b. has_holder_len k && b) (holders-insert l ls)
      ∙ and_swap (has_holder_len k) (has_holder_len l) (have_holder_len ls))
]

holders-sort : (ls : List LeaseRecord) → have_holder_len (sort_by_id ls) ≡ have_holder_len ls
holders-sort [] = refl
holders-sort (l ∷ ls) =
    holders-insert l (sort_by_id ls) ∙ ap (λ b. has_holder_len l && b) (holders-sort ls)

canonical :
    (ls : LeaseSet) → have_holder_len ls ≡ true → is_ordered ls ≡ true → is_lease_set ls ≡ true
unfolding is_lease_set
canonical [] h o = refl
canonical (l ∷ []) h o = ground arith
canonical (l ∷ k ∷ ls) h o = ground (arith, canonical (k ∷ ls))

abbrev Canonical : Result LeaseSetError LeaseSet → Type 0
Canonical (ok ls) = is_lease_set ls ≡ true
Canonical (err e) = Unit

from_records-Canonical : (records : List LeaseRecord) → Canonical (from_records records)
unfolding from_records
from_records-Canonical records = elim (Bool-cases (have_holder_len records)) [
  | inl holders ↦ rw holders (elim (Bool-cases (is_ordered (sort_by_id records))) [
    | inl ordered ↦
        rw ordered (canonical (sort_by_id records) (holders-sort records ∙ holders) ordered)
    | inr other ↦ rw other tt
  ])
  | inr other ↦ rw other tt
]

module _ {L M S B : Type 0} (r : Raft L M S) where
  abbrev pub LeasesPersisted :
      List (Entry L M)
      → L
      → List LeaseRecord
      → Epoch
      → StateMachine L S B
      → Result ConsensusError (Unit {0}) × StateMachine L S B
      → Type 0
  LeasesPersisted before l live epoch s (ok u, t) =
      (from_records live ≡ ok t.core.leases)
      × (is_lease_set t.core.leases ≡ true)
      × (r.term l ≡ epoch.number)
  LeasesPersisted before l live epoch s (err e, t) =
      (t ≡ s) ⊎ ((t.core.leases ≡ (apply r before s).1.core.leases) × (r.term l ≢ epoch.number))

  submit-LeasesPersisted :
      (before : List (Entry L M)) (l : L) (live : List LeaseRecord) (epoch : Epoch)
      (s : StateMachine L S B) (x : Result LeaseSetError LeaseSet)
      → from_records live ≡ x
      → Canonical x
      → LeasesPersisted before l live epoch s
          (submit_set_leases r (commits before l) epoch.number x s)
  unfolding client_write apply_entry classify_set_leases_outcome
  submit-LeasesPersisted before l live epoch s (err e) h q = inl refl
  submit-LeasesPersisted before l live epoch s (ok ls) h q =
      elim (Bool-cases (r.term l == epoch.number)) [
        | inl same ↦ rw same (h, q, ground arith)
        | inr other ↦ rw other (inr (refl, λ eq. ground arith))
      ]

  -- A lease set that is proposed and commits behind other entries: an answered call has replaced the durable
  -- set by the records in the order of their ids, a set that passes the checks of reading it back, and its
  -- entry is in the term of the caller's epoch; a call that fails changes nothing, or its entry is in another
  -- term and the set is as the entries before it left it.
  pub persist_leases_lem :
      (before : List (Entry L M)) (l : L) (live : List LeaseRecord) (epoch : Epoch)
      (s : StateMachine L S B)
      → LeasesPersisted before l live epoch s (persist_leases r (commits before l) live epoch s)
  unfolding persist_leases
  persist_leases_lem before l live epoch s =
      elim (Bool-cases (ltb s.active_write_version lease_write_version)) [
        | inl early ↦ rw early (inl refl)
        | inr active ↦ rw active (elim (Bool-cases (ltb u64_max epoch.number)) [
          | inl wide ↦ rw wide (inl refl)
          | inr term ↦ rw term (
              submit-LeasesPersisted before l live epoch s (from_records live) refl
                (from_records-Canonical live))
        ])
      ]
