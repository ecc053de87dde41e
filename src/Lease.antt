-- ===== src/Lease.antt =====
-- crates/tsoracle-core/src/lease.rs: lease records and the lease table. The table's one field is
-- the map from lease ids to records.
mod Tests
pub mod Table
pub mod Acquire
pub mod Renew
pub mod Frontier
use tsoracle.Prelude.{
  ℕ, ◌≤◌, max, min, Bool, true, false, not, ◌&&◌, ◌||◌, Option, none, some, List, [], ◌∷◌, length,
  Result, ok, err, ltb, leb, ◌==◌, if◌then◌else◌, ◌>>=◌, ◌>>◌, fail_if, ok_or,
}
use tsoracle.Seq.{is_empty}
use tsoracle.BTreeMap.{
  BTreeMap, same, bytes_ord, nat_ord, get, insert, remove, update, retain, values,
}

abbrev pub max_lease_holder_len : ℕ
max_lease_holder_len = 128

abbrev pub default_lease_ttl_floor_ms : ℕ
default_lease_ttl_floor_ms = 5_000

abbrev pub default_lease_ttl_ceiling_ms : ℕ
default_lease_ttl_ceiling_ms = 300_000

pub record LeaseRecord : Type 0 where
  pub lease_id : ℕ
  pub holder : List ℕ
  pub holder_epoch : ℕ
  pub ttl_ms : ℕ
  pub ts_upper_bound : ℕ
  pub expires_at_ms : ℕ
  pub superseded : Bool

abbrev pub is_expired : ℕ → LeaseRecord → Bool
is_expired now_ms r = leb r.expires_at_ms now_ms

abbrev pub is_live : ℕ → LeaseRecord → Bool
is_live now_ms r = not (is_expired now_ms r)

pub data LeaseError : Type 0 where
  holder_len_out_of_range : ℕ → LeaseError
  ttl_out_of_range : (ttl_ms floor_ms ceiling_ms : ℕ) → LeaseError
  holder_epoch_stale : (requested held : ℕ) → LeaseError
  unknown_lease : ℕ → LeaseError
  lease_expired : (lease_id expired_at_ms : ℕ) → LeaseError
  lease_superseded : (lease_id by_epoch : ℕ) → LeaseError

unfoldable pub validate_lease_request : List ℕ → ℕ → ℕ → ℕ → Result LeaseError (Unit {0})
validate_lease_request holder ttl_ms floor_ms ceiling_ms = do
  fail_if (is_empty holder || ltb max_lease_holder_len (length holder))
      (holder_len_out_of_range (length holder))
  fail_if (ltb ttl_ms floor_ms || ltb ceiling_ms ttl_ms)
      (ttl_out_of_range ttl_ms floor_ms ceiling_ms)
  ok tt

pub data AcquireDecision : Type 0 where
  idempotent : LeaseRecord → AcquireDecision
  grant : (supersedes : Option ℕ) → AcquireDecision

abbrev pub LeaseTable : Type 0
LeaseTable = BTreeMap ℕ LeaseRecord

abbrev pub new : LeaseTable
new = []

unfoldable pub prune_expired : ℕ → LeaseTable → LeaseTable
unfolding retain
prune_expired now_ms t = retain (is_live now_ms) t

-- `collect` into a map: a later record replaces one of the same id.
unfoldable pub collect : LeaseTable → List LeaseRecord → LeaseTable
collect t [] = t
collect t (r ∷ rs) = collect (insert r.lease_id r t) rs

unfoldable pub live_records : ℕ → List LeaseRecord → List LeaseRecord
live_records now_ms [] = []
live_records now_ms (r ∷ rs) =
    let rest = live_records now_ms rs in if is_expired now_ms r then rest else r ∷ rest

unfoldable pub seed : List LeaseRecord → ℕ → LeaseTable
unfolding collect live_records
seed records now_ms = collect [] (live_records now_ms records)

unfoldable pub clear : LeaseTable → LeaseTable
clear t = []

abbrev pub is_active : ℕ → LeaseRecord → Bool
is_active now_ms r = not r.superseded && not (is_expired now_ms r)

unfoldable pub active_for : List ℕ → ℕ → LeaseTable → Option LeaseRecord
active_for holder now_ms [] = none
active_for holder now_ms ((i, r) ∷ t) =
    if is_active now_ms r && same r.holder holder then some r else active_for holder now_ms t

decide : ℕ → Option LeaseRecord → Result LeaseError AcquireDecision
decide holder_epoch none = ok (grant none)
decide holder_epoch (some active) =
    if active.holder_epoch == holder_epoch
    then ok (idempotent active)
    else if ltb active.holder_epoch holder_epoch
    then ok (grant (some active.lease_id))
    else err (holder_epoch_stale holder_epoch active.holder_epoch)

unfoldable pub prepare_acquire : LeaseTable → List ℕ → ℕ → ℕ → Result LeaseError AcquireDecision
unfolding decide
prepare_acquire t holder holder_epoch now_ms = decide holder_epoch (active_for holder now_ms t)

abbrev pub mark_superseded : LeaseRecord → LeaseRecord
mark_superseded r = record r { superseded = true }

-- `if let Some(id) … && let Some(old) = get_mut(&id)`
unfoldable pub supersede : Option ℕ → LeaseTable → LeaseTable
supersede none t = t
supersede (some id) t = update id mark_superseded t

unfoldable pub commit_acquire : LeaseTable → LeaseRecord → Option ℕ → ℕ → LeaseTable
unfolding supersede prune_expired
commit_acquire t record' supersedes now_ms =
    prune_expired now_ms (insert record'.lease_id record' (supersede supersedes t))

-- the highest epoch above `r`'s in its holder group, `r`'s own if there is none
unfoldable pub superseding_epoch : LeaseRecord → LeaseTable → ℕ
superseding_epoch r [] = r.holder_epoch
superseding_epoch r ((i, s) ∷ t) =
    let rest = superseding_epoch r t in
    if same s.holder r.holder && ltb r.holder_epoch s.holder_epoch
    then max s.holder_epoch rest
    else rest

unfoldable pub prepare_renew : LeaseTable → ℕ → ℕ → Result LeaseError LeaseRecord
prepare_renew t lease_id now_ms = do
  r ← ok_or (get lease_id t) (unknown_lease lease_id)
  fail_if (is_expired now_ms r) (lease_expired lease_id r.expires_at_ms)
  fail_if r.superseded (lease_superseded lease_id (superseding_epoch r t))
  ok r

unfoldable pub commit_renew : LeaseTable → LeaseRecord → ℕ → LeaseTable
unfolding prune_expired
commit_renew t record' now_ms = prune_expired now_ms (insert record'.lease_id record' t)

unfoldable pub prepare_release : LeaseTable → ℕ → Option LeaseRecord
prepare_release t lease_id = get lease_id t

unfoldable pub commit_release : LeaseTable → ℕ → ℕ → LeaseTable
unfolding prune_expired
commit_release t lease_id now_ms = prune_expired now_ms (remove lease_id t)

unfoldable pub min_unexpired_bound : LeaseTable → ℕ → Option ℕ
min_unexpired_bound [] now_ms = none
min_unexpired_bound ((i, r) ∷ t) now_ms =
    let rest = min_unexpired_bound t now_ms in
    if is_expired now_ms r
    then rest
    else elim rest [ none ↦ some r.ts_upper_bound | some b ↦ some (min r.ts_upper_bound b) ]

unfoldable pub live_set : LeaseTable → ℕ → List LeaseRecord
live_set t now_ms = values (retain (is_live now_ms) t)

abbrev pub upsert_into : Option LeaseRecord → LeaseTable → LeaseTable
upsert_into none t = t
upsert_into (some r) t = insert r.lease_id r t

abbrev pub remove_from : Option ℕ → LeaseTable → LeaseTable
remove_from none t = t
remove_from (some id) t = remove id t

-- The set of `projected_live_set` before it is listed.
unfoldable pub projection : LeaseTable → Option LeaseRecord → Option ℕ → Option ℕ → ℕ → LeaseTable
unfolding supersede
projection t upsert supersedes removes now_ms =
    upsert_into upsert (remove_from removes (supersede supersedes (retain (is_live now_ms) t)))

unfoldable pub projected_live_set :
    LeaseTable → Option LeaseRecord → Option ℕ → Option ℕ → ℕ → List LeaseRecord
unfolding projection
projected_live_set t upsert supersedes removes now_ms =
    values (projection t upsert supersedes removes now_ms)
