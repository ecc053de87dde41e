-- ===== src/Client/Sweep.antt =====
-- One pass of a request over the endpoints: it ends, and dials no endpoint twice.
use mathlib.Core.Path.{subst}
use tsoracle.Prelude.{
  ℕ, zero, suc, ◌+◌, ◌≤◌, ◌<◌, ◌≡◌, refl, Bool, true, false, Option, none, some, List, [], ◌∷◌,
  length, arith, Bool-cases, inl, inr,
}
use tsoracle.BTreeMap.{bytes_ord}
use tsoracle.Client.{
  Endpoint, visited_already, Worklist, next_of, next, redirect_to, AttemptOutcome, ends, fails,
  leader_hint, also, dial, pass,
}

-- What one step takes: an endpoint that was not visited, off a queue that is shorter for it; or the queue
-- has no such endpoint.
abbrev Taken : List Endpoint → List Endpoint → Option Endpoint × Worklist → Type 0
Taken queue visited (none, w) = Unit
Taken queue visited (some e, w) =
    (visited_already e visited ≡ false)
    × (w.visited ≡ e ∷ visited)
    × (length w.queue + 1 ≤ length queue)

Taken-longer :
    (e : Endpoint) (queue visited : List Endpoint) (x : Option Endpoint × Worklist)
    → Taken queue visited x
    → Taken (e ∷ queue) visited x
Taken-longer e queue visited (none, w) h = tt
Taken-longer e queue visited (some d, w) h = (h.0, h.1, omega (arith, h.2))

next-Taken : (queue visited : List Endpoint) → Taken queue visited (next_of queue visited)
next-Taken [] visited = tt
next-Taken (e ∷ queue) visited = elim (Bool-cases (visited_already e visited)) [
  | inl seen ↦
      rw seen (Taken-longer e queue visited (next_of queue visited) (next-Taken queue visited))
  | inr new ↦ rw new (new, refl, omega arith)
]

-- Each endpoint of the list is outside those before it and outside the given ones.
abbrev pub Fresh : List Endpoint → List Endpoint → Type 0
Fresh visited [] = Unit
Fresh visited (e ∷ es) = (visited_already e visited ≡ false) × Fresh (e ∷ visited) es

-- A pass that has ended, with what it dialled.
abbrev Swept : ℕ → List Endpoint → List Endpoint × Bool → Type 0
Swept bound visited (es, done) = Fresh visited es × (length es ≤ bound) × (done ≡ true)

also-Swept :
    (e : Endpoint) (bound bound' : ℕ) (visited : List Endpoint) (x : List Endpoint × Bool)
    → visited_already e visited ≡ false
    → bound + 1 ≤ bound'
    → Swept bound (e ∷ visited) x
    → Swept bound' visited (also e x)
also-Swept e bound bound' visited (es, done) h k q = ((h, q.0), omega (arith, q.1), q.2)

dial-Swept :
    (left bound : ℕ) (a : AttemptOutcome) (go_on : ℕ → Worklist → List Endpoint × Bool)
    (queue visited : List Endpoint) (x : Option Endpoint × Worklist)
    → length queue + left ≤ bound
    → Taken queue visited x
    → ((left' : ℕ) (w : Worklist)
        → length w.queue + left' + 1 ≤ length queue + left
        → Swept (length w.queue + left') w.visited (go_on left' w))
    → Swept bound visited (dial left a go_on x)
unfolding redirect_to
dial-Swept left bound a go_on queue visited (none, w) b h more = (tt, omega arith, refl)
dial-Swept left bound ends go_on queue visited (some e, w) b h more =
    ((h.0, tt), omega (arith, h.2), refl)
dial-Swept left bound fails go_on queue visited (some e, w) b h more =
    also-Swept e (length w.queue + left) bound visited (go_on left w) h.0 (omega (arith, h.2)) (
      subst (λ v. Swept (length w.queue + left) v (go_on left w)) h.1
        (more left w (omega (arith, h.2))))
dial-Swept zero bound (leader_hint d) go_on queue visited (some e, w) b h more =
    ((h.0, tt), omega (arith, h.2), refl)
dial-Swept (suc left) bound (leader_hint d) go_on queue visited (some e, w) b h more =
    also-Swept e (suc (length w.queue) + left) bound visited (go_on left (redirect_to d w)) h.0
      (omega (arith, h.2))
      (subst (λ v. Swept (suc (length w.queue) + left) v (go_on left (redirect_to d w))) h.1
        (more left (redirect_to d w) (omega (arith, h.2))))

-- A pass with so many redirects left, over attempts that are more than the queued endpoints and the
-- redirects, whatever they come to: it has ended by then; it has dialled no more endpoints than that, none
-- of them twice, and none that it had visited before.
pub pass-Swept :
    (left : ℕ) (outcomes : List AttemptOutcome) (w : Worklist)
    → length w.queue + left < length outcomes
    → Fresh w.visited (pass left outcomes w).0
      × (length (pass left outcomes w).0 ≤ length w.queue + left)
      × ((pass left outcomes w).1 ≡ true)
unfolding pass next
pass-Swept left [] w h = absurd (omega (arith, h))
pass-Swept left (a ∷ rest) w h =
    dial-Swept left (length w.queue + left) a (λ left' w'. pass left' rest w') w.queue w.visited
      (next_of w.queue w.visited) (omega arith) (next-Taken w.queue w.visited)
      (λ left' w' shorter. pass-Swept left' rest w' (omega (arith, shorter, h)))
