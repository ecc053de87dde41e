-- ===== src/Openraft/Events.antt =====
-- The life of one state machine: entries applied, snapshots built and installed, in any order. A build
-- takes its copy of the state first and commits it later; what happens between is other events.
use tsoracle.Prelude.{List, [], ◌∷◌}
use tsoracle.BTreeMap.Ord.{Ord}
use tsoracle.Openraft.Entries.{Entry, Raft}
use tsoracle.Openraft.Apply.{Frame, SnapMeta, StateMachine, apply}
use tsoracle.Openraft.Codec.{Codecs}
use tsoracle.Openraft.Snapshot.{SaveOutcome}
use tsoracle.Openraft.Machine.{build_snapshot, install_snapshot}

pub data Event (L M S B : Type 0) : Type 0 where
  applies : (es : List (Entry L M)) → Event L M S B
  copy : Event L M S B
  builds : (w : SaveOutcome) → Event L M S B
  installs : (w : SaveOutcome) (meta : SnapMeta L S) (f : Frame B) → Event L M S B

-- The state machine, and the copy that a build has taken of it.
pub record Life (L S B : Type 0) : Type 0 where
  pub past : StateMachine L S B
  pub now : StateMachine L S B

module _ {L M S B : Type 0} ⦃o : Ord L⦄ (r : Raft L M S) (c : Codecs L S B) where
  abbrev pub on_event : Event L M S B → Life L S B → Life L S B
  on_event (applies es) x = record x { now = (apply r es x.now).1 }
  on_event copy x = record x { past = x.now }
  on_event (builds w) x = record x { now = (build_snapshot c w x.past x.now).1 }
  on_event (installs w meta f) x = record x { now = (install_snapshot c w meta f x.now).1 }

  unfoldable pub live : List (Event L M S B) → Life L S B → Life L S B
  live [] x = x
  live (e ∷ es) x = live es (on_event e x)
