-- ===== src/Openraft/Cases.antt =====
-- Where the state goes in the arms that test something first.
use tsoracle.Prelude.{ℕ, ◌==◌, ◌&&◌, leb, List, Bool-cases, inl, inr}
use tsoracle.Openraft.Entries.{
  LeaseSet, min_readable_version, max_readable_version, Raft, HighWaterCommand,
}
use tsoracle.Openraft.Apply.{StateMachine, is_subset, apply_format, apply_command}

module _ {L M S B : Type 0} (r : Raft L M S) where
  -- An activation sets the version cell to its target, or changes nothing.
  pub format-any :
      (P : StateMachine L S B → Type 0) (target : ℕ) (gated : List ℕ) (s : StateMachine L S B)
      → P s
      → P (record s { active_write_version = target })
      → P (apply_format r target gated s).1
  format-any P target gated s q active =
      elim (Bool-cases (leb min_readable_version target && leb target max_readable_version)) [
        | inl range ↦
            rw range (elim (Bool-cases (is_subset (r.node_ids s.core.last_membership) gated)) [
              | inl subset ↦ rw subset active
              | inr other ↦ rw other q
            ])
        | inr out ↦ rw out q
      ]

  -- A lease set replaces the one that is there, or changes nothing.
  pub leases-any :
      (P : StateMachine L S B → Type 0) (l : L) (term : ℕ) (ls : LeaseSet) (s : StateMachine L S B)
      → P s
      → P (record s { core = record (s.core) { leases = ls } })
      → P (apply_command r l (HighWaterCommand.set_leases term ls) s).1
  leases-any P l term ls s q replaced = elim (Bool-cases (r.term l == term)) [
    | inl same_term ↦ rw same_term replaced
    | inr other ↦ rw other q
  ]
