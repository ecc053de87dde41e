-- ===== src/Client/Sequence/Safety.antt =====
-- A dense sequence is not idempotent: a request is never sent again after it may have been granted.
use tsoracle.Prelude.{
  ℕ, ◌≡◌, refl, ap, false, ◌==◌, ◌||◌, arith, inl, inr, Bool, true, not, leb, ◌&&◌, Option, none,
  some, List, [], ◌∷◌, Result, ok, err, All, Bool-cases,
}
use tsoracle.BTreeMap.{bytes_ord, same, same_eq, same_refl}
use tsoracle.Epoch.{Epoch}
use tsoracle.Client.{Endpoint, Worklist, next}
use tsoracle.Client.Sequence.{
  ClientError, Reply, Turn, Loop, Outcome, done, again, start_loop, attempt, dial, round, heard,
  go_on, request, SeqResponse, SeqBlock, block_of, accept_block, issue_seq_rpc, SeqBatchResponse,
  accept_batch, issue_seq_batch_rpc,
}
use tsoracle.Client.Sequence.Heard.{
  ArePlain, Checks, Connects, Explains, Fine, surface-IsPlain, end_pass-Silent, on_reply-Heard,
}

module _ {R B : Type 0} (Answers : R → B → Type 0) (accept : R → Option B)
    (checks : (r : R) → Checks Answers r (accept r)) where
  attempt-Fine :
      (t : Turn R) (o : Option Bool) (l : Loop)
      → Connects t.reply
      → ArePlain l.last_err
      → Fine Answers (attempt accept t o l)
  attempt-Fine t none l c p = end_pass-Silent Answers accept checks t l p
  attempt-Fine t (some whole) l c p = elim (Bool-cases (l.issued_one && not whole)) [
    | inl short ↦ rw short (surface-IsPlain Answers accept checks l.election_signal l.last_err p)
    | inr long ↦
        rw long
          (on_reply-Heard Answers accept checks t t.reply (record l { issued_one = true }) c p)
  ]

  dial-Fine :
      (t : Turn R) (x : Option Endpoint × Worklist) (l : Loop)
      → Connects t.reply
      → ArePlain l.last_err
      → Fine Answers (dial accept t x l)
  dial-Fine t (none, w) l c p =
      end_pass-Silent Answers accept checks t (record l { worklist = w }) p
  dial-Fine t (some e, w) l c p = elim (Bool-cases (leb l.attempt_cap l.failed_attempts)) [
    | inl over ↦ rw over (end_pass-Silent Answers accept checks t (record l { worklist = w }) p)
    | inr room ↦ rw room (attempt-Fine t t.budget (record l { worklist = w }) c p)
  ]

  heard-Explains :
      (x : Option (Reply R) × Outcome B) (f : Loop → List (Reply R) × Option (Result ClientError B))
      → Fine Answers x
      → ((l : Loop) → ArePlain l.last_err → Explains Answers (f l).0 (f l).1)
      → Explains Answers
          (heard accept x.0 (go_on accept f x.1)).0
          (heard accept x.0 (go_on accept f x.1)).1
  heard-Explains (none, done (ok b)) f h k = absurd h
  heard-Explains (none, done (err e)) f h k = h
  heard-Explains (none, again l) f h k = k l h
  heard-Explains (some r, done y) f h k = inl h
  heard-Explains (some r, again l) f h k = inr (h.0, k l h.1)

  request-Explains :
      (ts : List (Turn R)) (l : Loop)
      → All (λ t. Connects t.reply) ts
      → ArePlain l.last_err
      → Explains Answers (request accept ts l).0 (request accept ts l).1
  unfolding request round
  request-Explains [] l c p = tt
  request-Explains (t ∷ ts) l (c, cs) p =
      heard-Explains (round accept t l) (λ l'. request accept ts l')
        (dial-Fine t (next l.worklist) l c p) (λ l' q. request-Explains ts l' cs q)

-- What a response says of a block: it echoes the key and the count, and has the block's start and epoch.
abbrev pub Echoes : (key : List ℕ) (count : ℕ) → SeqResponse → SeqBlock → Type 0
Echoes key count r b =
    (r.key ≡ key)
    × (r.count ≡ count)
    × (b.start ≡ r.start)
    × (b.count ≡ count)
    × (r.epoch ≡ some b.epoch)

accept_block-Checks :
    (key : List ℕ) (count : ℕ) (r : SeqResponse)
    → Checks (Echoes key count) r (accept_block key count r)
unfolding accept_block
accept_block-Checks key count r =
    elim (Bool-cases (not (same r.key key) || not (r.count == count))) [
      | inl wrong ↦ rw wrong (λ b x. apart x.0 x.1 wrong)
      | inr right ↦ rw right (block right r.epoch refl)
    ]
  where
    apart :
        r.key ≡ key → r.count ≡ count → (not (same r.key key) || not (r.count == count)) ≡ true → ⊥
    apart k c wrong = ground (arith, k, c, wrong, ap (λ x. same x key) k, same_refl key)

    block :
        (not (same r.key key) || not (r.count == count)) ≡ false
        → (e : Option Epoch) → r.epoch ≡ e
        → Checks (Echoes key count) r (block_of r.start r.count e)
    block right none h = λ b x. cc (h, x.4)
    block right (some e) h =
        let counted : r.count ≡ count = ground (arith, right) in
        (same_eq r.key key (ground (arith, right)), counted, refl, counted, h)

-- For a request for a block of a dense sequence, over any endpoints, redirects, refusals, timeouts
-- and passes, where no connection failure is itself an uncertain outcome: every reply but the last
-- is one after which the server can have granted nothing. A block is delivered only if the last
-- reply echoes the key and the count, and it has this count and the start and the epoch of that
-- reply. The result is uncertain only if the last reply may have been granted and is no such answer,
-- and any other error is answered only if no reply may have been granted. So a request that may
-- have been granted is never sent again.
pub issue_seq_rpc-Explains :
    (key : List ℕ) (count max_attempts : ℕ) (endpoints : List Endpoint)
    (turns : List (Turn SeqResponse))
    → All (λ t. Connects t.reply) turns
    → Explains
        (Echoes key count)
        (issue_seq_rpc key count max_attempts endpoints turns).0
        (issue_seq_rpc key count max_attempts endpoints turns).1
unfolding issue_seq_rpc
issue_seq_rpc-Explains key count max_attempts endpoints turns c =
    request-Explains (Echoes key count) (accept_block key count) (accept_block-Checks key count)
      turns (start_loop max_attempts endpoints) c tt

-- A check checks that it accepts.
accept-Checks :
    {R B : Type 0} (accept : R → Option B) (r : R) → Checks (λ r b. accept r ≡ some b) r (accept r)
accept-Checks {R} {B} accept r = go (accept r) refl
  where
    go : (o : Option B) → accept r ≡ o → Checks (λ r b. accept r ≡ some b) r o
    go none h = λ b e. cc (h, e)
    go (some b) h = h

-- The same holds of a request for a batch: every reply but the last is one after which the server can
-- have granted nothing, what is delivered is the blocks that `accept_batch` reads off the last reply,
-- and an uncertain result is answered only after a reply that may have been granted and that it does
-- not accept.
pub issue_seq_batch_rpc-Explains :
    (entries : List (List ℕ × ℕ)) (max_attempts : ℕ) (endpoints : List Endpoint)
    (turns : List (Turn SeqBatchResponse))
    → All (λ t. Connects t.reply) turns
    → Explains
        (λ r bs. accept_batch entries r ≡ some bs)
        (issue_seq_batch_rpc entries max_attempts endpoints turns).0
        (issue_seq_batch_rpc entries max_attempts endpoints turns).1
unfolding issue_seq_batch_rpc
issue_seq_batch_rpc-Explains entries max_attempts endpoints turns c =
    request-Explains (λ r bs. accept_batch entries r ≡ some bs) (accept_batch entries)
      (accept-Checks (accept_batch entries)) turns (start_loop max_attempts endpoints) c tt
