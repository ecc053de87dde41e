-- ===== src/Client/Sequence.antt =====
-- crates/tsoracle-client/src: a dense sequence request (`issue_seq_rpc`, `issue_seq_batch_rpc` of
-- retry.rs); Sequence/Status is what it makes of answers, whose names are passed on. The
-- network, the clock, the list of endpoints and the pool's cached leader are the turns it is run on.
mod Status
pub mod Heard
pub mod Safety
mod Tests
unfoldable pub use Status.*
use tsoracle.Prelude.{
  ℕ, zero, suc, ◌+◌, Bool, true, false, not, leb, ◌==◌, ◌&&◌, ◌||◌, if◌then◌else◌, min, max, Option,
  none, some, List, [], ◌∷◌, length, Result, ok, err, ◌>>=◌, ◌>>◌, fail_if, ok_or, u32_max,
}
use tsoracle.BTreeMap.{bytes_ord, same}
use tsoracle.Epoch.{Epoch}
use tsoracle.Client.{Endpoint, Worklist, new, next, redirect_to}

abbrev pub max_leader_redirects : ℕ
max_leader_redirects = 16

abbrev pub max_total_leader_redirects : ℕ
max_total_leader_redirects = 64

-- What comes of dialling an endpoint: no connection, or an answer to the request that was sent, a
-- status or a timeout.
pub data Reply (R : Type 0) : Type 0 where
  connect_failed : ClientError → Reply R
  connect_timeout timed_out : Reply R
  answered : R → Reply R
  refused :
      (code : Code) (lookup : LeaderHintLookup) (plaintext : Endpoint → Bool) (accepted : Bool)
      → Reply R

-- One round of the loop: the budget of the attempt, if there is time (`some false` when it is less
-- than a whole one), what comes of it, and, where the pass ends, whether there is time for another
-- and its endpoints.
pub record Turn (R : Type 0) : Type 0 where
  pub budget : Option Bool
  pub reply : Reply R
  pub time_left : Bool
  pub endpoints : List Endpoint

-- The variables of the loops.
pub record Loop : Type 0 where
  pub last_err : Option ClientError
  pub election_signal : Option Code
  pub failed_attempts : ℕ
  pub total_redirects : ℕ
  pub attempt_cap : ℕ
  pub issued_one : Bool
  pub worklist : Worklist
  pub redirects : ℕ
  pub saw_election_signal : Bool

pub data Outcome (B : Type 0) : Type 0 where
  done : Result ClientError B → Outcome B
  again : Loop → Outcome B

-- An attempt that counts against the cap.
abbrev pub count_failure : ClientError → Loop → Loop
count_failure e l = record l {
  last_err = some e;
  failed_attempts = min (l.failed_attempts + 1) u32_max;
}

-- There is no leader to go to yet: another pass may find one.
abbrev pub signal_election : Code → Loop → Loop
signal_election code l = record l {
  saw_election_signal = true;
  election_signal = some code;
  last_err = some (rpc code);
}

abbrev pub start_pass : List Endpoint → Loop → Loop
start_pass endpoints l = record l {
  worklist = new endpoints;
  redirects = 0;
  saw_election_signal = false;
}

-- Before the first pass.
abbrev pub start_loop : (max_attempts : ℕ) → List Endpoint → Loop
start_loop max_attempts endpoints = record {
  last_err = none;
  election_signal = none;
  failed_attempts = 0;
  total_redirects = 0;
  attempt_cap = max max_attempts (length endpoints);
  issued_one = false;
  worklist = new endpoints;
  redirects = 0;
  saw_election_signal = false;
}

-- `R` is a response and `B` what the caller gets; `accept` is the check of the one for the other.
module _ {R B : Type 0} (accept : R → Option B) where
  unfoldable pub end_pass : Turn R → Loop → Outcome B
  unfolding surface_error
  end_pass t l =
      if l.saw_election_signal && t.time_left
      then again (start_pass t.endpoints l)
      else done (err (surface_error l.election_signal l.last_err))

  unfoldable pub follow_hint : Turn R → Endpoint → Loop → Outcome B
  unfolding end_pass redirect_to surface_error
  follow_hint t hinted l =
      if leb max_total_leader_redirects l.total_redirects
      then done (err (surface_error l.election_signal (some (rpc failed_precondition))))
      else if leb max_leader_redirects l.redirects
      then end_pass t (signal_election failed_precondition l)
      else again (record l {
        redirects = l.redirects + 1;
        total_redirects = min (l.total_redirects + 1) u32_max;
        worklist = redirect_to hinted l.worklist;
      })

  abbrev pub on_outcome : Turn R → SeqAttemptOutcome → Loop → Outcome B
  on_outcome t uncertain l = done (err seq_uncertain)
  on_outcome t (leader_hint hinted) l = follow_hint t hinted l
  on_outcome t (failed e) l = again (count_failure e l)

  abbrev pub on_hint : Turn R → Code → HintOutcome → Loop → Outcome B
  on_hint t code (usable hinted) l = on_outcome t (leader_hint hinted) l
  on_hint t code no_leader_yet l = again (signal_election code l)
  on_hint t code stale_epoch l = again (signal_election code l)
  on_hint t code rejected l = on_outcome t (failed (rpc code)) l

  abbrev pub accepted_block : Option B → Result ClientError B
  accepted_block (some b) = ok b
  accepted_block none = err seq_uncertain

  unfoldable pub on_reply : Turn R → Reply R → Loop → Outcome B
  unfolding classify_seq_status classify_not_leader_hint follow_hint
  on_reply t (connect_failed e) l = again (count_failure e l)
  on_reply t connect_timeout l = again (count_failure (rpc deadline_exceeded) l)
  on_reply t timed_out l = on_outcome t uncertain l
  on_reply t (answered r) l = done (accepted_block (accept r))
  on_reply t (refused failed_precondition absent plaintext accepted) l =
      on_outcome t (classify_seq_status failed_precondition false) l
  on_reply t (refused failed_precondition lookup plaintext accepted) l =
      on_hint t failed_precondition (classify_not_leader_hint plaintext accepted lookup) l
  on_reply t (refused code lookup plaintext accepted) l =
      on_outcome t (classify_seq_status code true) l

  -- The attempt, if the budget allows for one; the reply is what is dialled for.
  abbrev pub attempt : Turn R → Option Bool → Loop → Option (Reply R) × Outcome B
  attempt t none l = (none, end_pass t l)
  attempt t (some whole) l =
      if l.issued_one && not whole
      then (none, done (err (surface_error l.election_signal l.last_err)))
      else (some t.reply, on_reply t t.reply (record l { issued_one = true }))

  abbrev pub dial : Turn R → Option Endpoint × Worklist → Loop → Option (Reply R) × Outcome B
  dial t (none, w) l = (none, end_pass t (record l { worklist = w }))
  dial t (some e, w) l =
      if leb l.attempt_cap l.failed_attempts
      then (none, end_pass t (record l { worklist = w }))
      else attempt t t.budget (record l { worklist = w })

  unfoldable pub round : Turn R → Loop → Option (Reply R) × Outcome B
  unfolding end_pass on_reply next
  round t l = dial t (next l.worklist) l

  -- The replies of a request and its result, if it has ended when the turns are used up.
  abbrev pub heard :
      Option (Reply R)
      → List (Reply R) × Option (Result ClientError B)
      → List (Reply R) × Option (Result ClientError B)
  heard none rest = rest
  heard (some r) (rs, result) = (r ∷ rs, result)

  abbrev pub go_on :
      (Loop → List (Reply R) × Option (Result ClientError B))
      → Outcome B
      → List (Reply R) × Option (Result ClientError B)
  go_on f (done r) = ([], some r)
  go_on f (again l) = f l

  unfoldable pub request : List (Turn R) → Loop → List (Reply R) × Option (Result ClientError B)
  unfolding round
  request [] l = ([], none)
  request (t ∷ ts) l = heard (round t l).0 (go_on (λ l'. request ts l') (round t l).1)

pub record SeqBlock : Type 0 where
  pub start : ℕ
  pub count : ℕ
  pub epoch : Epoch

pub record SeqResponse : Type 0 where
  pub key : List ℕ
  pub start : ℕ
  pub count : ℕ
  pub epoch : Option Epoch

abbrev pub block_of : ℕ → ℕ → Option Epoch → Option SeqBlock
block_of start count none = none
block_of start count (some e) = some (record { start = start; count = count; epoch = e })

-- The echo of the key and the count, and an epoch; `none` is `SeqUncertain`.
unfoldable pub accept_block : List ℕ → ℕ → SeqResponse → Option SeqBlock
accept_block key count r =
    if not (same r.key key) || not (r.count == count)
    then none
    else block_of r.start r.count r.epoch

-- `issue_seq_rpc`
unfoldable pub issue_seq_rpc :
    List ℕ
    → ℕ
    → (max_attempts : ℕ) → List Endpoint
    → List (Turn SeqResponse)
    → List (Reply SeqResponse) × Option (Result ClientError SeqBlock)
unfolding accept_block request
issue_seq_rpc key count max_attempts endpoints turns =
    request (accept_block key count) turns (start_loop max_attempts endpoints)

-- A grant of a batch, as the wire carries it.
pub record SeqGrant : Type 0 where
  pub key : List ℕ
  pub start : ℕ
  pub count : ℕ

pub record SeqBatchResponse : Type 0 where
  pub grants : List SeqGrant
  pub epoch : Option Epoch

abbrev pub zip_blocks : Epoch → List (List ℕ × ℕ) → List SeqGrant → Option (List SeqBlock)
zip_blocks epoch [] grants = some []
zip_blocks epoch (entry ∷ entries) [] = some []
zip_blocks epoch ((key, count) ∷ entries) (g ∷ grants) =
    let rest = zip_blocks epoch entries grants in
    if not (same g.key key) || not (g.count == count) then none else elim rest [
      | none ↦ none
      | some blocks ↦ some (record { start = g.start; count = g.count; epoch = epoch } ∷ blocks)
    ]

abbrev pub blocks_of : List (List ℕ × ℕ) → List SeqGrant → Option Epoch → Option (List SeqBlock)
blocks_of entries grants none = none
blocks_of entries grants (some epoch) = zip_blocks epoch entries grants

-- One grant for each entry, in order, with the echo of its key and count, and an epoch.
unfoldable pub accept_batch : List (List ℕ × ℕ) → SeqBatchResponse → Option (List SeqBlock)
accept_batch entries r =
    if not (length r.grants == length entries) then none else blocks_of entries r.grants r.epoch

-- `issue_seq_batch_rpc`
unfoldable pub issue_seq_batch_rpc :
    List (List ℕ × ℕ)
    → (max_attempts : ℕ) → List Endpoint
    → List (Turn SeqBatchResponse)
    → List (Reply SeqBatchResponse) × Option (Result ClientError (List SeqBlock))
unfolding accept_batch request
issue_seq_batch_rpc entries max_attempts endpoints turns =
    request (accept_batch entries) turns (start_loop max_attempts endpoints)
