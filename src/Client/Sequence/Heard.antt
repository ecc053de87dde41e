-- ===== src/Client/Sequence/Heard.antt =====
-- What a client knows of a sequence request by what it has heard, and that one reply is dealt with so.
use tsoracle.Prelude.{
  ◌≡◌, ◌⊎◌, inl, inr, refl, Bool, true, false, not, leb, ◌&&◌, Option, none, some, List, [], ◌∷◌,
  Result, ok, err, Bool-cases,
}
use tsoracle.Client.{Endpoint}
use tsoracle.Client.Sequence.{
  Code, ClientError, seq_uncertain, rpc, invalid_argument, resource_exhausted, unimplemented,
  failed_precondition, is_transport_failure, classify_seq_status, decoded, absent, malformed,
  HintOutcome, usable, no_leader_yet, stale_epoch, rejected, classify_not_leader_hint, Reply,
  connect_failed, connect_timeout, timed_out, answered, refused, Turn, Loop, Outcome, done, again,
  surface_error, signal_election, end_pass, follow_hint, on_hint, accepted_block, on_reply,
  max_leader_redirects, max_total_leader_redirects, no_reachable_endpoints, transport,
  invalid_endpoint, connector, transport_fanout, invalid_count, driver_gone, invalid_seq_key,
}

-- The codes with which a server refuses a request before it writes anything.
abbrev pub is_certain : Code → Bool
is_certain invalid_argument = true
is_certain resource_exhausted = true
is_certain unimplemented = true
is_certain failed_precondition = true
is_certain _ = false

abbrev pub IsPlain : ClientError → Type 0
IsPlain seq_uncertain = ⊥
IsPlain _ = Unit

abbrev pub ArePlain : Option ClientError → Type 0
ArePlain none = Unit
ArePlain (some e) = IsPlain e

module _ {R : Type 0} where
  -- Whether the server may have granted a block, by what the client heard.
  abbrev pub may_commit : Reply R → Bool
  may_commit (connect_failed e) = false
  may_commit connect_timeout = false
  may_commit timed_out = true
  may_commit (answered r) = true
  may_commit (refused code lookup plaintext accepted) = not (is_certain code)

  -- A connection that fails says nothing of a sequence.
  abbrev pub Connects : Reply R → Type 0
  Connects (connect_failed e) = IsPlain e
  Connects _ = Unit

  -- `Answers r b` says that `b` is what the response `r` describes of what was asked for.
  module _ {B : Type 0} (Answers : R → B → Type 0) where
    abbrev pub Delivers : Reply R → B → Type 0
    Delivers (answered r) b = Answers r b
    Delivers _ b = ⊥

    -- What the last reply is to a result: the answer that is delivered, or one that may have been
    -- granted and does not say what.
    abbrev pub Settles : Reply R → Result ClientError B → Type 0
    Settles r (ok b) = Delivers r b
    Settles r (err seq_uncertain) = (may_commit r ≡ true) × ((b : B) → Delivers r b → ⊥)
    Settles r (err e) = may_commit r ≡ false

    abbrev pub Ends : Reply R → List (Reply R) → Option (Result ClientError B) → Type 0
    Ends r [] (some x) = Settles r x
    Ends r _ _ = ⊥

    abbrev NoReply : Option (Result ClientError B) → Type 0
    NoReply none = Unit
    NoReply (some (ok b)) = ⊥
    NoReply (some (err e)) = IsPlain e

    -- Every reply but the last is of a request that was not granted.
    abbrev pub Explains : List (Reply R) → Option (Result ClientError B) → Type 0
    Explains [] result = NoReply result
    Explains (r ∷ rs) result = Ends r rs result ⊎ ((may_commit r ≡ false) × Explains rs result)

    abbrev Silent : Outcome B → Type 0
    Silent (done (ok b)) = ⊥
    Silent (done (err e)) = IsPlain e
    Silent (again l) = ArePlain l.last_err

    abbrev Heard : Reply R → Outcome B → Type 0
    Heard r (done x) = Settles r x
    Heard r (again l) = (may_commit r ≡ false) × ArePlain l.last_err

    abbrev pub Fine : Option (Reply R) × Outcome B → Type 0
    Fine (none, o) = Silent o
    Fine (some r, o) = Heard r o

  -- What the check of a response promises: it accepts what answers the request, and nothing else.
  abbrev pub Checks : {B : Type 0} → (R → B → Type 0) → R → Option B → Type 0
  Checks {B} Answers r none = (b : B) → Answers r b → ⊥
  Checks {B} Answers r (some b) = Answers r b

  module _ {B : Type 0} (Answers : R → B → Type 0) (accept : R → Option B)
      (checks : (r : R) → Checks Answers r (accept r)) where
    pub surface-IsPlain :
        (signal : Option Code) (last : Option ClientError)
        → ArePlain last
        → IsPlain (surface_error signal last)
    unfolding surface_error
    surface-IsPlain none none p = tt
    surface-IsPlain (some c) none p = tt
    surface-IsPlain none (some e) p = elim (Bool-cases (is_transport_failure e)) [
      | inl gone ↦ rw gone p
      | inr other ↦ rw other p
    ]
    surface-IsPlain (some c) (some e) p = elim (Bool-cases (is_transport_failure e)) [
      | inl gone ↦ rw gone tt
      | inr other ↦ rw other p
    ]

    pub end_pass-Silent :
        (t : Turn R) (l : Loop) → ArePlain l.last_err → Silent Answers (end_pass accept t l)
    unfolding end_pass
    end_pass-Silent t l p = elim (Bool-cases (l.saw_election_signal && t.time_left)) [
      | inl more ↦ rw more p
      | inr over ↦ rw over (surface-IsPlain l.election_signal l.last_err p)
    ]

    -- Of a reply that was not granted, whatever becomes of the loop without another one explains it.
    Silent-Heard :
        (r : Reply R) (o : Outcome B) → may_commit r ≡ false → Silent Answers o → Heard Answers r o
    Silent-Heard r (done (ok b)) n h = absurd h
    Silent-Heard r (done (err e)) n h = plain e h
      where
        plain : (e : ClientError) → IsPlain e → Settles Answers r (err e)
        plain seq_uncertain h = absurd h
        plain no_reachable_endpoints h = n
        plain transport h = n
        plain invalid_endpoint h = n
        plain connector h = n
        plain transport_fanout h = n
        plain invalid_count h = n
        plain driver_gone h = n
        plain invalid_seq_key h = n
        plain (rpc c) h = n
    Silent-Heard r (again l) n h = (n, h)

    follow-Silent :
        (t : Turn R) (hinted : Endpoint) (l : Loop)
        → ArePlain l.last_err
        → Silent Answers (follow_hint accept t hinted l)
    unfolding follow_hint
    follow-Silent t hinted l p =
        elim (Bool-cases (leb max_total_leader_redirects l.total_redirects)) [
          | inl all ↦ rw all (surface-IsPlain l.election_signal (some (rpc failed_precondition)) tt)
          | inr some_ ↦ elim (Bool-cases (leb max_leader_redirects l.redirects)) [
            | inl full ↦
                rw (some_, full) (end_pass-Silent t (signal_election failed_precondition l) tt)
            | inr room ↦ rw (some_, room) p
          ]
        ]

    on_hint-Silent :
        (t : Turn R) (code : Code) (o : HintOutcome) (l : Loop)
        → ArePlain l.last_err
        → Silent Answers (on_hint accept t code o l)
    on_hint-Silent t code (usable hinted) l p = follow-Silent t hinted l p
    on_hint-Silent t code no_leader_yet l p = tt
    on_hint-Silent t code stale_epoch l p = tt
    on_hint-Silent t code rejected l p = tt

    accepted-Settles :
        (r : R) (o : Option B)
        → Checks Answers r o
        → Settles Answers (answered r) (accepted_block accept o)
    accepted-Settles r none h = (refl, h)
    accepted-Settles r (some b) h = h

    pub on_reply-Heard :
        (t : Turn R) (r : Reply R) (l : Loop)
        → Connects r
        → ArePlain l.last_err
        → Heard Answers r (on_reply accept t r l)
    unfolding on_reply classify_seq_status
    on_reply-Heard t (connect_failed e) l c p = (refl, c)
    on_reply-Heard t connect_timeout l c p = (refl, tt)
    on_reply-Heard t timed_out l c p = (refl, λ b n. n)
    on_reply-Heard t (answered r) l c p = accepted-Settles r (accept r) (checks r)
    on_reply-Heard t (refused failed_precondition absent plaintext accepted) l c p = (refl, tt)
    on_reply-Heard t (refused failed_precondition malformed plaintext accepted) l c p =
        Silent-Heard (refused failed_precondition malformed plaintext accepted)
          (on_hint accept t failed_precondition
            (classify_not_leader_hint plaintext accepted malformed) l)
          refl
          (on_hint-Silent t failed_precondition
            (classify_not_leader_hint plaintext accepted malformed) l p)
    on_reply-Heard t (refused failed_precondition (decoded e n) plaintext accepted) l c p =
        Silent-Heard (refused failed_precondition (decoded e n) plaintext accepted)
          (on_hint accept t failed_precondition
            (classify_not_leader_hint plaintext accepted (decoded e n)) l)
          refl
          (on_hint-Silent t failed_precondition
            (classify_not_leader_hint plaintext accepted (decoded e n)) l p)
    on_reply-Heard t (refused invalid_argument k plaintext accepted) l c p = (refl, tt)
    on_reply-Heard t (refused resource_exhausted k plaintext accepted) l c p = (refl, tt)
    on_reply-Heard t (refused unimplemented k plaintext accepted) l c p = (refl, tt)
    on_reply-Heard t (refused code k plaintext accepted) l c p = (refl, λ b n. n)
