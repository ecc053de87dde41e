-- ===== src/Server/Keeps.antt =====
-- Actions that keep the serving core's invariant: the ways to build them, and the steps that the
-- handlers are built of.
use tsoracle.Prelude.{ℕ, none, Result, ok, err, arith}
use tsoracle.Epoch.{Epoch}
use tsoracle.CoreError.{CoreError}
use tsoracle.Server.Status.{
  Context, PersistDisposition, stepped_down, transient, permanent, beyond_range,
}
use tsoracle.Server.Action.{Server, Action, matching, continue, ◌>>=◌, redirect, ensure_serving}
use tsoracle.Server.Window.{on_persist_error, on_core_error, commit_actual, try_grant_now}
use tsoracle.Server.Leases.{commit_mutation, LeaseMutation, current_epoch_or_not_leader}
use tsoracle.Server.Invariant.{
  IsCore, step_down-IsCore, core_try_grant-IsCore, commit_extension-IsCore, lease_commit-IsCore,
}

abbrev pub Keeps : {D E A : Type 0} → Action (Server D) E A → Type 0
Keeps {D} m = (s : Server D) → IsCore s.core → IsCore (m s).1.core

module _ {D E F A B : Type 0} where
  pub matching-Keeps :
      (m : Action (Server D) F A) (k : Result F A → Action (Server D) E B)
      → Keeps m
      → ((r : Result F A) → Keeps (k r))
      → Keeps (matching m k)
  matching-Keeps m k km kk s v = kk (m s).0 (m s).1 (km s v)

module _ {D E A B : Type 0} where
  continue-Keeps :
      (f : A → Action (Server D) E B)
      → ((a : A) → Keeps (f a))
      → (r : Result E A) → Keeps (continue {S = Server D} f r)
  continue-Keeps f kf (ok a) s v = kf a s v
  continue-Keeps f kf (err e) s v = v

  pub bind-Keeps :
      (m : Action (Server D) E A) (f : A → Action (Server D) E B)
      → Keeps m
      → ((a : A) → Keeps (f a))
      → Keeps (m >>= f)
  bind-Keeps m f km kf s v = continue-Keeps f kf (m s).0 (m s).1 (km s v)

module _ {D : Type 0} (A : Type 0) where
  pub redirect-Keeps : Keeps {D = D} {A = A} redirect
  unfolding redirect
  redirect-Keeps s v = v

  pub on_persist_error-Keeps :
      (c : Context) (d : PersistDisposition) → Keeps {D = D} {A = A} (on_persist_error c d)
  unfolding on_persist_error redirect
  on_persist_error-Keeps c (stepped_down e) s v = step_down-IsCore none e s.core
  on_persist_error-Keeps c (transient x) s v = v
  on_persist_error-Keeps c (permanent x) s v = v
  on_persist_error-Keeps c (beyond_range n) s v = v

  pub on_core_error-Keeps : (e : CoreError) → Keeps {D = D} {A = A} (on_core_error e)
  unfolding on_core_error redirect
  on_core_error-Keeps e s v = ground arith

module _ {D : Type 0} where
  pub ensure_serving-Keeps : Keeps {D = D} ensure_serving
  unfolding ensure_serving redirect
  ensure_serving-Keeps s v = ground arith

  pub current_epoch-Keeps : Keeps {D = D} current_epoch_or_not_leader
  unfolding current_epoch_or_not_leader redirect
  current_epoch-Keeps s v = ground arith

  pub commit_actual-Keeps : (n : ℕ) (e : Epoch) → Keeps {D = D} (commit_actual n e)
  unfolding commit_actual
  commit_actual-Keeps n e s v = ground (arith, commit_extension-IsCore n e s.core v)

  pub commit_mutation-Keeps :
      (m : LeaseMutation) (e : Epoch) (now : ℕ) → Keeps {D = D} (commit_mutation m e now)
  unfolding commit_mutation
  commit_mutation-Keeps m e now s v =
      ground (arith, lease_commit-IsCore m.upsert m.supersede m.remove e now s.core v)

  pub try_grant_now-Keeps : (now count : ℕ) → Keeps {D = D} (try_grant_now now count)
  unfolding try_grant_now
  try_grant_now-Keeps now count s v = core_try_grant-IsCore now count s.core v
