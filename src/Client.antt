-- ===== src/Client.antt =====
-- crates/tsoracle-client/src: the check of a timestamp response (response.rs), and the endpoints that one
-- pass of a request visits (worklist.rs, and the loop in retry.rs). What an attempt answers is a parameter.
pub mod Response
pub mod Sweep
pub mod Sequence
pub mod Leaders
mod Tests
use tsoracle.Prelude.{
  ℕ, zero, suc, ◌+◌, ◌-◌, Bool, true, false, not, ltb, ◌==◌, ◌||◌, if◌then◌else◌, Option, none,
  some, List, [], ◌∷◌, Result, ok, err, ◌>>=◌, ◌>>◌, fail_if, ok_or, map_err, checked_add_u32,
}
use tsoracle.BTreeMap.{bytes_ord, same}
use tsoracle.Timestamp.{Timestamp, logical_max, pack, try_pack}
use tsoracle.Server.Window.{GetTsResponse}

abbrev pub max_timestamps_per_rpc : ℕ
max_timestamps_per_rpc = logical_max + 1

pub record TimestampRange : Type 0 where
  pub physical_ms : ℕ
  pub logical_start : ℕ
  pub count : ℕ

-- The `n` timestamps from the given one on; `none` is the panic of `pack`.
abbrev pub packed_from : ℕ → ℕ → ℕ → List (Option Timestamp)
packed_from physical_ms logical zero = []
packed_from physical_ms logical (suc n) =
    pack physical_ms logical ∷ packed_from physical_ms (suc logical) n

-- `TimestampRange::iter`
unfoldable pub timestamps : TimestampRange → List (Option Timestamp)
timestamps t = packed_from t.physical_ms t.logical_start t.count

-- `ClientError::Rpc` with an internal status
pub data ClientError : Type 0 where
  wrong_count out_of_range_count logical_overflow invalid_timestamp : ClientError

unfoldable pub decode_get_ts_response : GetTsResponse → ℕ → Result ClientError TimestampRange
unfolding try_pack
decode_get_ts_response resp requested = do
  fail_if (not (resp.count == requested)) wrong_count
  fail_if (resp.count == 0 || ltb max_timestamps_per_rpc resp.count) out_of_range_count
  last ← ok_or (checked_add_u32 resp.logical_start (resp.count - 1)) logical_overflow
  fail_if (ltb logical_max last) logical_overflow
  _ ← map_err (λ e. invalid_timestamp) (try_pack resp.physical_ms resp.logical_start)
  ok (record {
    physical_ms = resp.physical_ms;
    logical_start = resp.logical_start;
    count = resp.count;
  })

abbrev pub Endpoint : Type 0
Endpoint = List ℕ

abbrev pub visited_already : Endpoint → List Endpoint → Bool
visited_already e [] = false
visited_already e (v ∷ vs) = if same e v then true else visited_already e vs

pub record Worklist : Type 0 where
  pub queue : List Endpoint
  pub visited : List Endpoint

unfoldable pub new : List Endpoint → Worklist
new endpoints = record { queue = endpoints; visited = [] }

abbrev pub next_of : List Endpoint → List Endpoint → Option Endpoint × Worklist
next_of [] visited = (none, record { queue = []; visited = visited })
next_of (e ∷ queue) visited =
    let rest = next_of queue visited in
    if visited_already e visited
    then rest
    else (some e, record { queue = queue; visited = e ∷ visited })

unfoldable pub next : Worklist → Option Endpoint × Worklist
next w = next_of w.queue w.visited

unfoldable pub redirect_to : Endpoint → Worklist → Worklist
redirect_to e w = record w { queue = e ∷ w.queue }

-- What an attempt comes to, as far as the pass goes: it ends the pass, it hints at a leader, or it leaves
-- the pass to its next endpoint.
pub data AttemptOutcome : Type 0 where
  ends fails : AttemptOutcome
  leader_hint : (endpoint : Endpoint) → AttemptOutcome

-- A pass, over the outcomes of the attempts in their order: the endpoints that are dialled, and whether the
-- pass has ended when the outcomes are used up. `left` is
-- what is left of the redirects of a pass. The limits on time and on failed attempts only end a pass
-- sooner, and are left out.
abbrev pub also : Endpoint → List Endpoint × Bool → List Endpoint × Bool
also e (es, done) = (e ∷ es, done)

abbrev pub dial :
    ℕ
    → AttemptOutcome
    → (ℕ → Worklist → List Endpoint × Bool)
    → Option Endpoint × Worklist
    → List Endpoint × Bool
dial left a go_on (none, w) = ([], true)
dial left ends go_on (some e, w) = (e ∷ [], true)
dial left fails go_on (some e, w) = also e (go_on left w)
dial zero (leader_hint h) go_on (some e, w) = (e ∷ [], true)
dial (suc left) (leader_hint h) go_on (some e, w) = also e (go_on left (redirect_to h w))

unfoldable pub pass : ℕ → List AttemptOutcome → Worklist → List Endpoint × Bool
unfolding next redirect_to
pass left [] w = ([], false)
pass left (a ∷ rest) w = dial left a (λ left' w'. pass left' rest w') (next w)
