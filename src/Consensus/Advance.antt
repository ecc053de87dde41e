-- ===== src/Consensus/Advance.antt =====
-- Applying a log of advances: only which advances are in it counts.
use mathlib.Core.List.{Memᴰ}
use mathlib.Core.List.Memᴰ
use mathlib.Core.List.Memᴰ.{head, tail}
use tsoracle.Prelude.{ℕ, ◌≤◌, ◌≡◌, refl, max, List, [], ◌∷◌, arith}
use tsoracle.Consensus.{AdvancePayload, merge}

-- The state machine's value after a log of advances.
unfoldable pub apply_all : List AdvancePayload → ℕ → ℕ
apply_all [] current = current
apply_all (p ∷ ps) current = apply_all ps (merge p current)

apply_all-le : (ps : List AdvancePayload) (c : ℕ) → c ≤ apply_all ps c
unfolding apply_all merge
apply_all-le [] c = omega arith
apply_all-le (p ∷ ps) c = ground (arith, apply_all-le ps (max c p.at_least))

apply_all-Memᴰ :
    (ps : List AdvancePayload) (c : ℕ) (p : AdvancePayload)
    → Memᴰ p ps
    → p.at_least ≤ apply_all ps c
unfolding apply_all merge
apply_all-Memᴰ [] c p m = absurd (Memᴰ.not-nil m)
apply_all-Memᴰ (q ∷ ps) c p (head e) = rw e (omega (arith, apply_all-le ps (max c q.at_least)))
apply_all-Memᴰ (q ∷ ps) c p (tail m) = apply_all-Memᴰ ps (max c q.at_least) p m

apply_all-least :
    (ps : List AdvancePayload) (c b : ℕ)
    → c ≤ b
    → ((p : AdvancePayload) → Memᴰ p ps → p.at_least ≤ b)
    → apply_all ps c ≤ b
unfolding apply_all merge
apply_all-least [] c b h m = h
apply_all-least (q ∷ ps) c b h m =
    apply_all-least ps (max c q.at_least) b (omega (arith, m q (head refl))) (λ p k. m p (tail k))

covers :
    (ps qs : List AdvancePayload) (c : ℕ)
    → ((p : AdvancePayload) → Memᴰ p ps → Memᴰ p qs)
    → apply_all ps c ≤ apply_all qs c
covers ps qs c sub =
    apply_all-least ps c (apply_all qs c) (apply_all-le qs c)
      (λ p m. apply_all-Memᴰ qs c p (sub p m))

-- Two logs that have the same advances, each in its own order and number of times, lead from one
-- value to the same value.
pub apply_all-order :
    (ps qs : List AdvancePayload) (c : ℕ)
    → ((p : AdvancePayload) → Memᴰ p ps → Memᴰ p qs)
    → ((p : AdvancePayload) → Memᴰ p qs → Memᴰ p ps)
    → apply_all ps c ≡ apply_all qs c
apply_all-order ps qs c sub sup = omega (arith, covers ps qs c sub, covers qs ps c sup)
