-- ===== src/Server/LeaseHandlers.antt =====
-- The lease handlers keep the serving core's invariant, if the waits do.
use tsoracle.Prelude.{
  ℕ, ◌==◌, Bool, true, false, if◌then◌else◌, Option, none, some, List, Result, ok, err,
  saturating_add_u64,
}
use tsoracle.Epoch.{Epoch, to_wire}
use tsoracle.CoreError.{CoreError}
use tsoracle.Allocator.{CommitOutcome, applied, ignored}
use tsoracle.Lease.{
  LeaseRecord, LeaseError, AcquireDecision, idempotent, grant, prepare_acquire, prepare_renew,
  prepare_release, validate_lease_request,
}
use tsoracle.Consensus.{ConsensusError}
use tsoracle.Server.Status.{Status, of_leases, classify}
use tsoracle.Server.Core.{prepare_extension, prepare_lease_renewal, lease_projected_live_set}
use tsoracle.Server.Action.{Runtime, Handler, pure, gets, modify, ◌>>=◌, ◌>>◌, ensure_serving}
use tsoracle.Server.Window.{on_core_error, commit_actual, persist_bound}
use tsoracle.Server.Leases.{
  AcquireLeaseRequest, AcquireLeaseResponse, RenewLeaseResponse, LeaseLimits, LeaseMutation,
  persist_extension_bound, persist_renewal_bound, renew_bound, persist_lease_set,
  persist_lease_mutation, commit_mutation, set_stored, on_lease_error, unless_ignored, decided,
  acquire_lease, renew_lease, release_lease, release_held, current_epoch_or_not_leader,
  granted_record, renewed_record, acquire_response, or_lease_status,
}
use tsoracle.Server.Keeps.{
  Keeps, bind-Keeps, redirect-Keeps, on_persist_error-Keeps, on_core_error-Keeps,
  ensure_serving-Keeps, current_epoch-Keeps, commit_actual-Keeps, commit_mutation-Keeps,
}
use tsoracle.Server.Handlers.{IsQuiet, persist_bound-Keeps}

module _ {D : Type 0} (run : Runtime D) (q : IsQuiet run) where
  unless_ignored-Keeps :
      (A : Type 0) (a : A) (o : CommitOutcome) → Keeps {D = D} (unless_ignored a o)
  unfolding unless_ignored
  unless_ignored-Keeps A a (applied w) = λ s v. v
  unless_ignored-Keeps A a (ignored r) = redirect-Keeps A

  bound-Keeps :
      (n : ℕ) (e : Epoch)
      → Keeps (
          persist_bound run n e >>= λ a.
          commit_actual a e >>= λ o. unless_ignored {A = ℕ × Epoch} (a, e) o)
  bound-Keeps n e =
      bind-Keeps (persist_bound run n e)
        (λ a. commit_actual a e >>= λ o. unless_ignored {A = ℕ × Epoch} (a, e) o)
        (persist_bound-Keeps run q n e)
        (λ a.
          bind-Keeps (commit_actual a e) (λ o. unless_ignored {A = ℕ × Epoch} (a, e) o)
            (commit_actual-Keeps a e) (λ o. unless_ignored-Keeps (ℕ × Epoch) (a, e) o))

  extension-Keeps : (now ttl : ℕ) → Keeps (persist_extension_bound run now ttl)
  unfolding persist_extension_bound
  extension-Keeps now ttl s v = go (prepare_extension s.core now ttl) s v
    where
      go :
          (r : Result CoreError (ℕ × Epoch))
          → Keeps {D = D} {E = Status} {A = ℕ × Epoch} (elim r [
            | ok (n, e) ↦ persist_bound run n e >>= λ a.
                commit_actual a e >>= λ o. unless_ignored {A = ℕ × Epoch} (a, e) o
            | err e ↦ on_core_error e
          ])
      go (ok (n, e)) = bound-Keeps n e
      go (err e) = on_core_error-Keeps (ℕ × Epoch) e

  renew_bound-Keeps : (c n : ℕ) (e : Epoch) → Keeps (renew_bound run c n e)
  unfolding renew_bound
  renew_bound-Keeps c n e = go (n == c)
    where
      go :
          (b : Bool)
          → Keeps {D = D} {E = Status} {A = ℕ × Epoch} (
              if b
              then pure (c, e)
              else (persist_bound run n e >>= λ a.
                  commit_actual a e >>= λ o. unless_ignored {A = ℕ × Epoch} (a, e) o))
      go true = λ s v. v
      go false = bound-Keeps n e

  renewal-Keeps : (now ttl : ℕ) → Keeps (persist_renewal_bound run now ttl)
  unfolding persist_renewal_bound
  renewal-Keeps now ttl s v = go (prepare_lease_renewal s.core now ttl) s v
    where
      go :
          (r : Result CoreError (ℕ × ℕ × Epoch))
          → Keeps {D = D} {E = Status} {A = ℕ × Epoch}
              (elim r [ ok (c, n, e) ↦ renew_bound run c n e | err e ↦ on_core_error e ])
      go (ok (c, n, e)) = renew_bound-Keeps c n e
      go (err e) = on_core_error-Keeps (ℕ × Epoch) e

  on_lease_error-Keeps : (e : ConsensusError) → Keeps {D = D} {A = Unit {0}} (on_lease_error e)
  unfolding on_lease_error
  on_lease_error-Keeps ConsensusError.leases_unsupported = λ s v. v
  on_lease_error-Keeps (ConsensusError.leases_not_activated r a) = λ s v. v
  on_lease_error-Keeps e = on_persist_error-Keeps (Unit {0}) of_leases (classify e)

  lease_set-Keeps : (rs : List LeaseRecord) (e : Epoch) → Keeps (persist_lease_set run rs e)
  unfolding persist_lease_set
  lease_set-Keeps rs e s v =
      go (run.consensus.persist_leases rs e s).0 (run.consensus.persist_leases rs e s).1
        (q.persist_leases rs e s v)
    where
      go : (r : Result ConsensusError (Unit {0})) → Keeps {D = D} (set_stored r)
      go (ok u) = λ s v. v
      go (err e) = on_lease_error-Keeps e

  pub mutation-Keeps :
      (m : LeaseMutation) (e : Epoch) (now : ℕ) → Keeps (persist_lease_mutation run m e now)
  unfolding persist_lease_mutation
  mutation-Keeps m e now s v =
      go (lease_projected_live_set s.core m.upsert m.supersede m.remove e now) s v
    where
      go :
          (r : Result CoreError (List LeaseRecord))
          → Keeps {D = D} {E = Status} {A = Unit {0}} (elim r [
            | ok set ↦ persist_lease_set run set e >> commit_mutation m e now
            | err x ↦ on_core_error x
          ])
      go (ok set) =
          bind-Keeps (persist_lease_set run set e) (λ _. commit_mutation m e now)
            (lease_set-Keeps set e) (λ _. commit_mutation-Keeps m e now)
      go (err x) = on_core_error-Keeps (Unit {0}) x

  then_mutate-Keeps :
      {A B : Type 0} (m : Handler D A) (f : A → LeaseMutation) (e : A → Epoch) (now : ℕ) (b : A → B)
      → Keeps m
      → Keeps (m >>= λ a. persist_lease_mutation run (f a) (e a) now >> pure (b a))
  then_mutate-Keeps {A} {B} m f e now b km =
      bind-Keeps m (λ a. persist_lease_mutation run (f a) (e a) now >> pure (b a)) km
        (λ a.
          bind-Keeps (persist_lease_mutation run (f a) (e a) now) (λ _. pure (b a))
            (mutation-Keeps (f a) (e a) now) (λ _ s v. v))

  decided-Keeps :
      (req : AcquireLeaseRequest) (now : ℕ) (d : AcquireDecision) → Keeps (decided run req now d)
  unfolding decided
  decided-Keeps req now (idempotent live) =
      bind-Keeps current_epoch_or_not_leader (λ e. pure (acquire_response live e))
        current_epoch-Keeps (λ e s v. v)
  decided-Keeps req now (grant sup) = λ s v.
      then_mutate-Keeps (persist_extension_bound run now req.ttl_ms)
        (λ a. record { upsert = some (granted_record req a.0 now); supersede = sup; remove = none })
        (λ a. a.1) now (λ a. acquire_response (granted_record req a.0 now) a.1)
        (extension-Keeps now req.ttl_ms) (run.drain_barrier s) (q.gate s v)

  status-Keeps : (A : Type 0) (r : Result LeaseError A) → Keeps {D = D} (or_lease_status r)
  status-Keeps A (ok a) = λ s v. v
  status-Keeps A (err e) = λ s v. v

  pub acquire-Keeps :
      (limits : LeaseLimits) (now : ℕ) (req : AcquireLeaseRequest)
      → Keeps (acquire_lease run limits now req)
  unfolding acquire_lease
  acquire-Keeps limits now req =
      bind-Keeps ensure_serving (λ _. rest) ensure_serving-Keeps
        (λ _.
          bind-Keeps (or_lease_status valid) (λ _. search) (status-Keeps (Unit {0}) valid)
            (λ _. search-Keeps))
    where
      valid : Result LeaseError (Unit {0})
      valid = validate_lease_request req.holder req.ttl_ms limits.ttl_floor_ms limits.ttl_ceiling_ms

      search : Handler D AcquireLeaseResponse
      search =
          modify run.extension_slot
          >> (gets (λ s. prepare_acquire s.core.lease_table req.holder req.holder_epoch now)
              >>= λ prepared. or_lease_status prepared >>= λ d. decided run req now d)

      rest : Handler D AcquireLeaseResponse
      rest = or_lease_status valid >> search

      search-Keeps : Keeps search
      search-Keeps s v =
          let s' = run.extension_slot s in
          let r = prepare_acquire s'.core.lease_table req.holder req.holder_epoch now in
          bind-Keeps (or_lease_status r) (decided run req now) (status-Keeps AcquireDecision r)
            (decided-Keeps req now) s' (q.slot s v)

  pub renew-Keeps : (now lease_id : ℕ) → Keeps (renew_lease run now lease_id)
  unfolding renew_lease
  renew-Keeps now lease_id =
      bind-Keeps ensure_serving (λ _. search) ensure_serving-Keeps (λ _. search-Keeps)
    where
      renewed : LeaseRecord → ℕ → Epoch → RenewLeaseResponse
      renewed r actual e = record {
        ts_upper_bound = actual;
        expires_at_ms = saturating_add_u64 now r.ttl_ms;
        epoch = to_wire e;
      }

      mutation : LeaseRecord → ℕ → LeaseMutation
      mutation r actual = record {
        upsert = some (renewed_record r actual now);
        supersede = none;
        remove = none;
      }

      held : LeaseRecord → Handler D RenewLeaseResponse
      held r =
          modify run.drain_barrier
          >> (persist_renewal_bound run now r.ttl_ms >>= λ (actual, e).
              persist_lease_mutation run (mutation r actual) e now >> pure (renewed r actual e))

      held-Keeps : (r : LeaseRecord) → Keeps (held r)
      held-Keeps r s v =
          then_mutate-Keeps (persist_renewal_bound run now r.ttl_ms) (λ a. mutation r a.0)
            (λ a. a.1) now (λ a. renewed r a.0 a.1) (renewal-Keeps now r.ttl_ms)
            (run.drain_barrier s) (q.gate s v)

      search : Handler D RenewLeaseResponse
      search =
          modify run.extension_slot
          >> (gets (λ s. prepare_renew s.core.lease_table lease_id now) >>= λ prepared.
              or_lease_status prepared >>= held)

      search-Keeps : Keeps search
      search-Keeps s v =
          let s' = run.extension_slot s in
          let r = prepare_renew s'.core.lease_table lease_id now in
          bind-Keeps (or_lease_status r) held (status-Keeps LeaseRecord r) held-Keeps s'
            (q.slot s v)

  release_held-Keeps : (now lease_id : ℕ) → Keeps (release_held run now lease_id)
  unfolding release_held
  release_held-Keeps now lease_id =
      bind-Keeps current_epoch_or_not_leader
        (λ e. modify run.drain_barrier >> persist_lease_mutation run mutation e now)
        current_epoch-Keeps
        (λ e s v. mutation-Keeps mutation e now (run.drain_barrier s) (q.gate s v))
    where
      mutation : LeaseMutation
      mutation = record { upsert = none; supersede = none; remove = some lease_id }

  pub release-Keeps : (now lease_id : ℕ) → Keeps (release_lease run now lease_id)
  unfolding release_lease
  release-Keeps now lease_id =
      bind-Keeps ensure_serving (λ _. search) ensure_serving-Keeps
        (λ _ s v.
          let s' = run.extension_slot s in
          found-Keeps (prepare_release s'.core.lease_table lease_id) s' (q.slot s v))
    where
      found : Option LeaseRecord → Handler D (Unit {0})
      found r = elim r [ none ↦ pure tt | some r ↦ release_held run now lease_id ]

      found-Keeps : (r : Option LeaseRecord) → Keeps (found r)
      found-Keeps none = λ s v. v
      found-Keeps (some r) = release_held-Keeps now lease_id

      search : Handler D (Unit {0})
      search =
          modify run.extension_slot
          >> (gets (λ s. prepare_release s.core.lease_table lease_id) >>= found)
