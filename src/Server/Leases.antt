-- ===== src/Server/Leases.antt =====
-- crates/tsoracle-server/src/lease_flow.rs: acquiring, renewing and releasing a lease. The bound is
-- persisted and committed first, then the table that the change leads to is persisted, then the
-- change is made in memory.
use tsoracle.Prelude.{
  ℕ, ◌==◌, if◌then◌else◌, Option, none, some, List, false, Result, ok, err, saturating_add_u64,
}
use tsoracle.Epoch.{Epoch, to_wire}
use tsoracle.Allocator.{CommitOutcome, applied, ignored}
use tsoracle.Lease.{
  LeaseRecord, AcquireDecision, grant, idempotent, LeaseError, validate_lease_request,
  prepare_acquire, prepare_renew, prepare_release,
}
use tsoracle.Consensus.{ConsensusError, leases_unsupported, leases_not_activated}
use tsoracle.CoreError.{CoreError}
use tsoracle.Server.Status.{
  status, of_leases, unimplemented, failed_precondition, no_leases, not_yet_activated, core_status,
  lease_status, classify,
}
use tsoracle.Server.Core.{
  ServingCore, current_epoch, prepare_extension, prepare_lease_renewal, lease_projected_live_set,
  lease_commit,
}
use tsoracle.Server.Action.{
  Runtime, Handler, pure, throw, gets, modify, matching, ◌>>=◌, ◌>>◌, redirect, ensure_serving,
}
use tsoracle.Server.Window.{on_persist_error, on_core_error, commit_actual, persist_bound}

pub record AcquireLeaseRequest : Type 0 where
  pub holder : List ℕ
  pub holder_epoch : ℕ
  pub ttl_ms : ℕ

pub record AcquireLeaseResponse : Type 0 where
  pub lease_id : ℕ
  pub ts_upper_bound : ℕ
  pub expires_at_ms : ℕ
  pub epoch : ℕ × ℕ

pub record RenewLeaseResponse : Type 0 where
  pub ts_upper_bound : ℕ
  pub expires_at_ms : ℕ
  pub epoch : ℕ × ℕ

-- The bounds of a lease's term, from the server's configuration.
pub record LeaseLimits : Type 0 where
  pub ttl_floor_ms : ℕ
  pub ttl_ceiling_ms : ℕ

pub record LeaseMutation : Type 0 where
  pub upsert : Option LeaseRecord
  pub supersede : Option ℕ
  pub remove : Option ℕ

-- `record.map_err(lease_status)?`
abbrev pub or_lease_status : {D A : Type 0} → Result LeaseError A → Handler D A
or_lease_status (ok a) = pure a
or_lease_status (err e) = throw (lease_status e)

abbrev pub granted_record : AcquireLeaseRequest → ℕ → ℕ → LeaseRecord
granted_record req actual now_ms = record {
  lease_id = actual;
  holder = req.holder;
  holder_epoch = req.holder_epoch;
  ttl_ms = req.ttl_ms;
  ts_upper_bound = actual;
  expires_at_ms = saturating_add_u64 now_ms req.ttl_ms;
  superseded = false;
}

abbrev pub acquire_response : LeaseRecord → Epoch → AcquireLeaseResponse
acquire_response r epoch = record {
  lease_id = r.lease_id;
  ts_upper_bound = r.ts_upper_bound;
  expires_at_ms = r.expires_at_ms;
  epoch = to_wire epoch;
}

abbrev pub renewed_record : LeaseRecord → ℕ → ℕ → LeaseRecord
renewed_record r actual now_ms = record r {
  ts_upper_bound = actual;
  expires_at_ms = saturating_add_u64 now_ms r.ttl_ms;
}

module _ {D : Type 0} where
  unfoldable pub current_epoch_or_not_leader : Handler D Epoch
  current_epoch_or_not_leader s = elim (current_epoch s.core) [
    | none ↦ redirect s
    | some e ↦ (ok e, s)
  ]

  -- Only an applied commit keeps the bound.
  unfoldable pub unless_ignored : {A : Type 0} → A → CommitOutcome → Handler D A
  unless_ignored a (applied w) = pure a
  unless_ignored a (ignored reason) = redirect

  unfoldable pub on_lease_error : {A : Type 0} → ConsensusError → Handler D A
  unfolding on_persist_error
  on_lease_error leases_unsupported = throw (status unimplemented no_leases)
  on_lease_error (leases_not_activated required active) =
      throw (status failed_precondition (not_yet_activated active required))
  on_lease_error e = on_persist_error of_leases (classify e)

  abbrev pub set_stored : Result ConsensusError (Unit {0}) → Handler D (Unit {0})
  unfolding on_lease_error
  set_stored (ok u) = pure tt
  set_stored (err e) = on_lease_error e

  -- The commit of a lease change, as a step of the core.
  abbrev pub set_changed : Result CoreError ServingCore → Handler D (Unit {0})
  set_changed (ok c) s = (ok tt, record s { core = c })
  set_changed (err e) s = (err (core_status e), s)

  unfoldable pub commit_mutation : LeaseMutation → Epoch → ℕ → Handler D (Unit {0})
  commit_mutation m epoch now_ms s =
      set_changed (lease_commit m.upsert m.supersede m.remove epoch now_ms s.core) s

  module _ (run : Runtime D) where
    unfoldable pub persist_extension_bound : ℕ → ℕ → Handler D (ℕ × Epoch)
    unfolding on_core_error commit_actual persist_bound unless_ignored
    persist_extension_bound now_ms ttl_ms = do
      prepared ← gets λ s. prepare_extension s.core now_ms ttl_ms
      elim prepared [
        | ok (requested, epoch) ↦ do
          actual ← persist_bound run requested epoch
          outcome ← commit_actual actual epoch
          unless_ignored (actual, epoch) outcome
        | err e ↦ on_core_error e
      ]

    unfoldable pub renew_bound : ℕ → ℕ → Epoch → Handler D (ℕ × Epoch)
    unfolding commit_actual persist_bound unless_ignored
    renew_bound committed requested epoch =
        if requested == committed then pure (committed, epoch) else (do
          actual ← persist_bound run requested epoch
          outcome ← commit_actual actual epoch
          unless_ignored (actual, epoch) outcome)

    unfoldable pub persist_renewal_bound : ℕ → ℕ → Handler D (ℕ × Epoch)
    unfolding on_core_error renew_bound
    persist_renewal_bound now_ms ttl_ms = do
      prepared ← gets λ s. prepare_lease_renewal s.core now_ms ttl_ms
      elim prepared [
        | ok (committed, requested, epoch) ↦ renew_bound committed requested epoch
        | err e ↦ on_core_error e
      ]

    unfoldable pub persist_lease_set : List LeaseRecord → Epoch → Handler D (Unit {0})
    unfolding on_lease_error
    persist_lease_set set epoch = matching (run.consensus.persist_leases set epoch) set_stored

    unfoldable pub persist_lease_mutation : LeaseMutation → Epoch → ℕ → Handler D (Unit {0})
    unfolding persist_lease_set on_core_error commit_mutation
    persist_lease_mutation m epoch now_ms = do
      projected ←
          gets λ s. lease_projected_live_set s.core m.upsert m.supersede m.remove epoch now_ms
      elim projected [
        | ok set ↦ do persist_lease_set set epoch; commit_mutation m epoch now_ms
        | err e ↦ on_core_error e
      ]

    unfoldable pub decided :
        AcquireLeaseRequest → ℕ → AcquireDecision → Handler D AcquireLeaseResponse
    unfolding persist_extension_bound persist_lease_mutation current_epoch_or_not_leader
    decided req now_ms (idempotent live) = do
      epoch ← current_epoch_or_not_leader
      pure (acquire_response live epoch)
    decided req now_ms (grant supersedes) = do
      modify run.drain_barrier
      (actual, epoch) ← persist_extension_bound now_ms req.ttl_ms
      persist_lease_mutation
          (record {
            upsert = some (granted_record req actual now_ms);
            supersede = supersedes;
            remove = none;
          })
          epoch now_ms
      pure (acquire_response (granted_record req actual now_ms) epoch)

    unfoldable pub acquire_lease :
        LeaseLimits → ℕ → AcquireLeaseRequest → Handler D AcquireLeaseResponse
    unfolding ensure_serving decided
    acquire_lease limits now_ms req = do
      ensure_serving
      or_lease_status
          (validate_lease_request req.holder req.ttl_ms limits.ttl_floor_ms limits.ttl_ceiling_ms)
      modify run.extension_slot
      prepared ← gets λ s. prepare_acquire s.core.lease_table req.holder req.holder_epoch now_ms
      decision ← or_lease_status prepared
      decided req now_ms decision

    unfoldable pub renew_lease : ℕ → ℕ → Handler D RenewLeaseResponse
    unfolding ensure_serving persist_renewal_bound persist_lease_mutation
    renew_lease now_ms lease_id = do
      ensure_serving
      modify run.extension_slot
      prepared ← gets λ s. prepare_renew s.core.lease_table lease_id now_ms
      found ← or_lease_status prepared
      modify run.drain_barrier
      (actual, epoch) ← persist_renewal_bound now_ms found.ttl_ms
      persist_lease_mutation
          (record {
            upsert = some (renewed_record found actual now_ms);
            supersede = none;
            remove = none;
          })
          epoch now_ms
      pure (record {
        ts_upper_bound = actual;
        expires_at_ms = saturating_add_u64 now_ms found.ttl_ms;
        epoch = to_wire epoch;
      })

    unfoldable pub release_held : ℕ → ℕ → Handler D (Unit {0})
    unfolding persist_lease_mutation current_epoch_or_not_leader
    release_held now_ms lease_id = do
      epoch ← current_epoch_or_not_leader
      modify run.drain_barrier
      persist_lease_mutation (record { upsert = none; supersede = none; remove = some lease_id })
          epoch now_ms

    -- An unknown lease is released already.
    unfoldable pub release_lease : ℕ → ℕ → Handler D (Unit {0})
    unfolding ensure_serving release_held
    release_lease now_ms lease_id = do
      ensure_serving
      modify run.extension_slot
      found ← gets λ s. prepare_release s.core.lease_table lease_id
      elim found [ none ↦ pure tt | some r ↦ release_held now_ms lease_id ]
