-- ===== src/Client/Sequence/Status.antt =====
-- crates/tsoracle-client/src: what is made of the status of a refusal (seq_attempt.rs, leader_hint.rs,
-- retry_policy.rs, `surface_error` of retry.rs).
use tsoracle.Prelude.{Bool, true, false, not, if◌then◌else◌, Option, none, some}
use tsoracle.Epoch.{Epoch}
use tsoracle.Client.{Endpoint}

-- The codes of a status that refuses a request.
pub data Code : Type 0 where
  invalid_argument resource_exhausted unimplemented failed_precondition : Code
  unavailable deadline_exceeded cancelled unknown not_found already_exists permission_denied : Code
  aborted out_of_range internal data_loss unauthenticated : Code

pub data ClientError : Type 0 where
  no_reachable_endpoints transport transport_fanout invalid_endpoint invalid_count : ClientError
  connector driver_gone seq_uncertain invalid_seq_key : ClientError
  rpc : Code → ClientError

unfoldable pub is_transport_failure : ClientError → Bool
is_transport_failure (rpc unavailable) = true
is_transport_failure (rpc deadline_exceeded) = true
is_transport_failure transport = true
is_transport_failure transport_fanout = true
is_transport_failure _ = false

pub data SeqAttemptOutcome : Type 0 where
  leader_hint : (endpoint : Endpoint) → SeqAttemptOutcome
  uncertain : SeqAttemptOutcome
  failed : ClientError → SeqAttemptOutcome

unfoldable pub classify_seq_status : Code → Bool → SeqAttemptOutcome
classify_seq_status invalid_argument sent = failed (rpc invalid_argument)
classify_seq_status resource_exhausted sent = failed (rpc resource_exhausted)
classify_seq_status unimplemented sent = failed (rpc unimplemented)
classify_seq_status code true = uncertain
classify_seq_status code false = failed (rpc code)

-- What the trailer of a refusal holds: a hint, nothing, or something that does not decode.
pub data LeaderHintLookup : Type 0 where
  decoded : (leader_endpoint : Option Endpoint) (leader_epoch : Option Epoch) → LeaderHintLookup
  absent malformed : LeaderHintLookup

pub data HintOutcome : Type 0 where
  usable : Endpoint → HintOutcome
  no_leader_yet stale_epoch rejected : HintOutcome

-- `classify_not_leader_hint`. `plaintext` is whether the pool rejects an endpoint for its scheme, and
-- `accepted` what the pool's cached leader answers to the hint.
unfoldable pub classify_not_leader_hint :
    (plaintext : Endpoint → Bool) (accepted : Bool) → LeaderHintLookup → HintOutcome
classify_not_leader_hint plaintext accepted absent = no_leader_yet
classify_not_leader_hint plaintext accepted malformed = rejected
classify_not_leader_hint plaintext accepted (decoded none epoch) = rejected
classify_not_leader_hint plaintext accepted (decoded (some hinted) epoch) =
    if plaintext hinted then rejected else if accepted then usable hinted else stale_epoch

unfoldable pub surface_error : Option Code → Option ClientError → ClientError
unfolding is_transport_failure
surface_error (some code) none = rpc code
surface_error none none = no_reachable_endpoints
surface_error signal (some e) =
    if not (is_transport_failure e) then e else elim signal [ none ↦ e | some code ↦ rpc code ]
