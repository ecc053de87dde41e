-- ===== src/Server/Action.antt =====
-- A handler: it reads and writes the server's state, and ends in an answer or a status. What it
-- wrote stays written when it ends in a status.
use tsoracle.Prelude.{Bool, Result, ok, err, if◌then◌else◌, none}
use tsoracle.Consensus.{ConsensusDriver}
use tsoracle.Server.Status.{Status, LeaderHint, not_leader_status, wire_epoch}
use tsoracle.Server.Core.{ServingCore, ServingState, serving, not_serving, is_serving}

-- The shared state of a process: the serving core, and whatever the backend keeps.
pub record Server (D : Type 0) : Type 0 where
  pub core : ServingCore
  pub backend : D

-- The backend, whose calls are awaited, and the two locks that an extension waits for, first its
-- slot and then the gate that the fence closes. Each takes the state from before the wait to the
-- one after it: other tasks may have run.
pub record Runtime (D : Type 0) : Type 0 where
  pub consensus : ConsensusDriver (Server D)
  pub extension_slot : Server D → Server D
  pub drain_barrier : Server D → Server D

abbrev pub Action : Type 0 → Type 0 → Type 0 → Type 0
Action S E A = S → Result E A × S

module _ {S E A : Type 0} where
  abbrev pub pure : A → Action S E A
  pure a s = (ok a, s)

  abbrev pub throw : E → Action S E A
  throw e s = (err e, s)

  abbrev pub gets : (S → A) → Action S E A
  gets f s = (ok (f s), s)

  abbrev pub of_result : Result E A → Action S E A
  of_result r s = (r, s)

-- `match m { ... }`
abbrev pub matching :
    {S E F A B : Type 0} → Action S F A → (Result F A → Action S E B) → Action S E B
matching m k s = let (r, s') = m s in k r s'

abbrev pub continue : {S E A B : Type 0} → (A → Action S E B) → Result E A → Action S E B
continue f (ok a) = f a
continue f (err e) = throw e

infixl 5 ◌>>=◌ ◌>>◌
abbrev pub ◌>>=◌ : {S E A B : Type 0} → Action S E A → (A → Action S E B) → Action S E B
m >>= f = matching m (continue f)

abbrev pub ◌>>◌ : {S E B : Type 0} → Action S E (Unit {0}) → Action S E B → Action S E B
m >> k = m >>= λ _. k

abbrev pub throw_if : {S E : Type 0} → Bool → E → Action S E (Unit {0})
throw_if b e s = (if b then err e else ok tt, s)

abbrev pub modify : {S E : Type 0} → (S → S) → Action S E (Unit {0})
modify f s = (ok tt, f s)

abbrev pub Handler : Type 0 → Type 0 → Type 0
Handler D A = Action (Server D) Status A

abbrev pub on_core : {D : Type 0} → (ServingCore → ServingCore) → Server D → Server D
on_core f s = record s { core = f s.core }

-- `leader_hint_from`: what the last published state says of the leader.
abbrev pub leader_hint_of : ServingState → LeaderHint
leader_hint_of serving = record { leader_endpoint = none; leader_epoch = none }
leader_hint_of (not_serving p e) = record { leader_endpoint = p; leader_epoch = wire_epoch e }

module _ {D : Type 0} where
  unfoldable pub not_leader : Server D → Status
  not_leader s = not_leader_status (leader_hint_of s.core.state)

  -- `Err(not_leader(server))`
  unfoldable pub redirect : {A : Type 0} → Handler D A
  unfolding not_leader
  redirect s = (err (not_leader s), s)

  unfoldable pub ensure_serving : Handler D (Unit {0})
  unfolding redirect
  ensure_serving s = if is_serving s.core then (ok tt, s) else redirect s
