-- ===== src/Client/Sequence/Tests.antt =====
-- A request for a block that meets a failed connection, a redirect, an election and a second pass.
use tsoracle.Prelude.{ℕ, ◌≡◌, refl, Bool, true, false, some, List, [], ◌∷◌, ok}
use tsoracle.Epoch.{Epoch}
use tsoracle.BTreeMap.Ord.{cmp_bytes}
use tsoracle.Client.{Endpoint, new}
use tsoracle.Client.Sequence.{
  failed_precondition, transport, decoded, Reply, connect_failed, timed_out, answered, refused,
  Turn, SeqResponse, issue_seq_rpc,
}
use tsoracle.Client.Sequence.Heard.{Explains}
use tsoracle.Client.Sequence.Safety.{Echoes, issue_seq_rpc-Explains}

abbrev at : ℕ → Endpoint
at n = n ∷ []

abbrev key : List ℕ
key = 97 ∷ 98 ∷ []

abbrev fifth : Epoch
fifth = record { number = 5 }

abbrev turn : Reply SeqResponse → Turn SeqResponse
turn r = record { budget = some true; reply = r; time_left = true; endpoints = at 1 ∷ at 2 ∷ [] }

abbrev hint_to : ℕ → Bool → Reply SeqResponse
hint_to n accepted =
    refused failed_precondition (decoded (some (at n)) (some fifth)) (λ e. false) accepted

abbrev granted : Reply SeqResponse
granted = answered (record { key = key; start = 40; count = 3; epoch = some fifth })

-- No connection to 1; 2 points to 9, which lags behind; the pass ends, and 1 answers in the next.
abbrev turns : List (Turn SeqResponse)
turns =
    turn (connect_failed transport)
    ∷ turn (hint_to 9 true)
    ∷ turn (hint_to 8 false)
    ∷ turn timed_out
    ∷ turn granted
    ∷ []

abbrev start_endpoints : List Endpoint
start_endpoints = at 1 ∷ at 2 ∷ []

delivered :
    (issue_seq_rpc key 3 5 start_endpoints turns).1
    ≡ some (ok (record { start = 40; count = 3; epoch = fifth }))
unfolding issue_seq_rpc new cmp_bytes
delivered = refl

issue_seq_rpc-Explains_example :
    Explains
      (Echoes key 3)
      (issue_seq_rpc key 3 5 start_endpoints turns).0
      (issue_seq_rpc key 3 5 start_endpoints turns).1
issue_seq_rpc-Explains_example =
    issue_seq_rpc-Explains key 3 5 start_endpoints turns (tt, (tt, (tt, (tt, (tt, tt)))))
