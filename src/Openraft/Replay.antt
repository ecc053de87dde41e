-- ===== src/Openraft/Replay.antt =====
-- Entries see only the replicated part of the state.
use tsoracle.Prelude.{
  ◌==◌, ◌≡◌, refl, sym, ap, ◌∙◌, ◌&&◌, leb, none, List, [], ◌∷◌, Bool-cases, inl, inr,
}
use tsoracle.Openraft.Entries.{
  min_readable_version, max_readable_version, HighWaterCommand, HighWaterApplied, EntryPayload,
  blank, normal, membership, Entry, Raft,
}
use tsoracle.Openraft.Apply.{
  StateMachine, is_subset, apply_command, apply_payload, apply_entry, apply, applied,
}

-- What the log determines: all but the snapshot that is at hand and the one that is stored.
abbrev pub view : {L S B : Type 0} → StateMachine L S B → StateMachine L S B
view s = record s { core = record (s.core) { current_snapshot = none }; store = none }

abbrev view_after : {A L S B : Type 0} → A × StateMachine L S B → A × StateMachine L S B
view_after (a, s) = (a, view s)

module _ {L M S B : Type 0} (r : Raft L M S) where
  view-apply_command :
      (l : L) (c : HighWaterCommand) (s : StateMachine L S B)
      → apply_command r l c (view s) ≡ view_after (apply_command r l c s)
  view-apply_command l (HighWaterCommand.advance p) s = refl
  view-apply_command l (HighWaterCommand.set_format_version target gated) s =
      elim (Bool-cases (leb min_readable_version target && leb target max_readable_version)) [
        | inl range ↦
            rw range (elim (Bool-cases (is_subset (r.node_ids s.core.last_membership) gated)) [
              | inl subset ↦ rw subset refl
              | inr other ↦ rw other refl
            ])
        | inr out ↦ rw out refl
      ]
  view-apply_command l (HighWaterCommand.advance_dense e) s = refl
  view-apply_command l (HighWaterCommand.advance_dense_batch es) s = refl
  view-apply_command l (HighWaterCommand.set_leases term ls) s =
      elim (Bool-cases (r.term l == term)) [
        | inl same_term ↦ rw same_term refl
        | inr other ↦ rw other refl
      ]

  view-apply_payload :
      (l : L) (p : EntryPayload M) (s : StateMachine L S B)
      → apply_payload r l p (view s) ≡ view_after (apply_payload r l p s)
  view-apply_payload l blank s = refl
  view-apply_payload l (normal c) s = view-apply_command l c s
  view-apply_payload l (membership m) s = refl

  view-apply_entry :
      (e : Entry L M) (s : StateMachine L S B)
      → apply_entry r e (view s) ≡ view_after (apply_entry r e s)
  unfolding apply_entry
  view-apply_entry e s = ap (applied r e.log_id) (view-apply_payload e.log_id e.payload s)

  abbrev prepend :
      HighWaterApplied
      → List HighWaterApplied × StateMachine L S B
      → List HighWaterApplied × StateMachine L S B
  prepend a (answers, s) = (a ∷ answers, s)

  abbrev then_apply :
      List (Entry L M)
      → HighWaterApplied × StateMachine L S B
      → List HighWaterApplied × StateMachine L S B
  then_apply es (a, s) = prepend a (apply r es s)

  view-apply :
      (es : List (Entry L M)) (s : StateMachine L S B)
      → apply r es (view s) ≡ view_after (apply r es s)
  unfolding apply
  view-apply [] s = refl
  view-apply (e ∷ es) s =
      ap (then_apply es) (view-apply_entry e s)
      ∙ ap (prepend (apply_entry r e s).0) (view-apply es (apply_entry r e s).1)

  -- Two state machines of one view answer the same entries alike, and are of one view after.
  pub apply-view :
      (es : List (Entry L M)) (s t : StateMachine L S B)
      → view s ≡ view t
      → view_after (apply r es s) ≡ view_after (apply r es t)
  apply-view es s t h = sym (view-apply es s) ∙ ap (apply r es) h ∙ view-apply es t
