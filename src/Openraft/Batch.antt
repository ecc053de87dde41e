-- ===== src/Openraft/Batch.antt =====
-- A batch on the dense counters against its entries one after another: the same blocks and the same
-- counters, or nothing.
use tsoracle.Prelude.{
  ℕ, ◌+◌, ◌≤◌, ◌≡◌, refl, sym, ◌∙◌, ap, Bool, true, false, not, leb, ltb, ◌&&◌, if◌then◌else◌,
  Option, none, some, List, [], ◌∷◌, checked_add_u64, arith, ◌⊎◌, inl, inr, Bool-cases,
}
use tsoracle.BTreeMap.{bytes_ord, get, insert, contains_key, len, Sorted, insert-Sorted, len-insert}
use tsoracle.Openraft.Entries.{DenseAdvance, ApplyOutcome, dense_advanced, dense_batch_advanced}
use tsoracle.Openraft.Counters.{
  Counters, or_zero, bumped, advance_one, new_keys, push, if_some, fold_batch, commit_scratch,
  batch_outcome, advance_batch,
}
use tsoracle.Openraft.NewKeys.{new_keys_known, len-new_keys}
use tsoracle.Openraft.Scratch.{folded, committed_on, fold_batch-folded}

-- What a single advance gives out, if it does.
abbrev pub started : ApplyOutcome × Counters → Option (ℕ × Counters)
started (dense_advanced start, d) = some (start, d)
started _ = none

-- Single advances in turn; none when one of them is refused.
unfoldable pub singles : ℕ → List DenseAdvance → Counters → Option (List ℕ × Counters)
unfolding advance_one
singles cap [] d = some ([], d)
singles cap (e ∷ es) d =
    if_some (started (advance_one cap e d)) (λ one. push one.0 (singles cap es one.1))

-- What a batch gives out, if it does.
abbrev pub granted : ApplyOutcome × Counters → Option (List ℕ × Counters)
granted (dense_batch_advanced starts, d) = some (starts, d)
granted _ = none

-- The entries one after another, when there is room for the new keys.
abbrev roomy : ℕ → List DenseAdvance → Counters → Option (List ℕ × Counters)
roomy cap es d = if ltb cap (len d + len (new_keys es d)) then none else folded es d

-- The places in use and the places a batch still needs, before and after its first entry.
places_step :
    (n : ℕ) (e : DenseAdvance) (es : List DenseAdvance) (d : Counters)
    → Sorted d
    → len d + len (new_keys (e ∷ es) d)
      ≡ len (insert e.key.bytes n d) + len (new_keys es (insert e.key.bytes n d))
unfolding new_keys
places_step n e es d h = elim (Bool-cases (contains_key e.key.bytes d)) [
  | inl known ↦
      ground (arith, len-insert e.key.bytes n d h, ap len (new_keys_known e.key.bytes n es d known))
  | inr new ↦ ground (arith, len-insert e.key.bytes n d h, len-new_keys e.key.bytes n es d)
]

room_step :
    (b : Bool) (o : Option ℕ) (start : ℕ) (f : ℕ → Option (List ℕ × Counters)) (c : ℕ → Bool)
    → ((n : ℕ) → c n ≡ b)
    → (if b then none else if_some o (λ n. push start (f n)))
      ≡ if_some o (λ n. push start (if c n then none else f n))
room_step true none start f c h = refl
room_step false none start f c h = refl
room_step true (some n) start f c h = ap (λ b. push start (if b then none else f n)) (sym (h n))
room_step false (some n) start f c h = ap (λ b. push start (if b then none else f n)) (sym (h n))

started-bumped :
    (k : List ℕ) (d : Counters) (o : Option ℕ) (f : ℕ × Counters → Option (List ℕ × Counters))
    → if_some (started (bumped k d o)) f ≡ if_some o (λ n. f (or_zero (get k d), insert k n d))
started-bumped k d none f = refl
started-bumped k d (some n) f = refl

if_some-ext :
    (o : Option ℕ) (f g : ℕ → Option (List ℕ × Counters))
    → ((n : ℕ) → f n ≡ g n)
    → if_some o f ≡ if_some o g
if_some-ext none f g h = refl
if_some-ext (some n) f g h = h n

singles-full :
    (cap : ℕ) (e : DenseAdvance) (es : List DenseAdvance) (d : Counters)
    → (not (contains_key e.key.bytes d) && leb cap (len d)) ≡ true
    → roomy cap (e ∷ es) d ≡ singles cap (e ∷ es) d
unfolding new_keys singles advance_one
singles-full cap e es d full = ground (arith, len-new_keys e.key.bytes 0 es d)

singles-free :
    (cap : ℕ) (e : DenseAdvance) (es : List DenseAdvance) (d : Counters)
    → (not (contains_key e.key.bytes d) && leb cap (len d)) ≡ false
    → singles cap (e ∷ es) d
      ≡ if_some
          (checked_add_u64 (or_zero (get e.key.bytes d)) e.count)
          (λ n. push (or_zero (get e.key.bytes d)) (singles cap es (insert e.key.bytes n d)))
unfolding singles advance_one
singles-free cap e es d free = rw free (
    started-bumped e.key.bytes d (checked_add_u64 (or_zero (get e.key.bytes d)) e.count)
      (λ one. push one.0 (singles cap es one.1)))

roomy-free :
    (cap : ℕ) (e : DenseAdvance) (es : List DenseAdvance) (d : Counters)
    → Sorted d
    → roomy cap (e ∷ es) d
      ≡ if_some
          (checked_add_u64 (or_zero (get e.key.bytes d)) e.count)
          (λ n. push (or_zero (get e.key.bytes d)) (roomy cap es (insert e.key.bytes n d)))
unfolding folded
roomy-free cap e es d h =
    room_step (ltb cap (len d + len (new_keys (e ∷ es) d)))
      (checked_add_u64 (or_zero (get e.key.bytes d)) e.count) (or_zero (get e.key.bytes d))
      (λ n. folded es (insert e.key.bytes n d))
      (λ n. ltb cap (len (insert e.key.bytes n d) + len (new_keys es (insert e.key.bytes n d))))
      (λ n. ap (ltb cap) (sym (places_step n e es d h)))

room_left :
    (cap n : ℕ) (e : DenseAdvance) (d : Counters)
    → Sorted d
    → len d ≤ cap
    → (not (contains_key e.key.bytes d) && leb cap (len d)) ≡ false
    → len (insert e.key.bytes n d) ≤ cap
room_left cap n e d h room free = ground (arith, len-insert e.key.bytes n d h)

roomy-singles :
    (cap : ℕ) (es : List DenseAdvance) (d : Counters)
    → Sorted d
    → len d ≤ cap
    → roomy cap es d ≡ singles cap es d
unfolding new_keys folded singles
roomy-singles cap [] d h room = ground arith
roomy-singles cap (e ∷ es) d h room =
    go (Bool-cases (not (contains_key e.key.bytes d) && leb cap (len d)))
      (λ n. roomy-singles cap es (insert e.key.bytes n d) (insert-Sorted e.key.bytes n d h))
  where
    go :
        ((not (contains_key e.key.bytes d) && leb cap (len d)) ≡ true)
          ⊎ ((not (contains_key e.key.bytes d) && leb cap (len d)) ≡ false)
        → ((n : ℕ)
            → len (insert e.key.bytes n d) ≤ cap
            → roomy cap es (insert e.key.bytes n d) ≡ singles cap es (insert e.key.bytes n d))
        → roomy cap (e ∷ es) d ≡ singles cap (e ∷ es) d
    go (inl full) rest = singles-full cap e es d full
    go (inr free) rest =
        roomy-free cap e es d h
        ∙ if_some-ext (checked_add_u64 (or_zero (get e.key.bytes d)) e.count)
            (λ n. push (or_zero (get e.key.bytes d)) (roomy cap es (insert e.key.bytes n d)))
            (λ n. push (or_zero (get e.key.bytes d)) (singles cap es (insert e.key.bytes n d)))
            (λ n.
              ap (push (or_zero (get e.key.bytes d))) (rest n (room_left cap n e d h room free)))
        ∙ sym (singles-free cap e es d free)

granted-batch_outcome :
    (d : Counters) (o : Option (List ℕ × Counters)) → granted (batch_outcome d o) ≡ committed_on d o
granted-batch_outcome d none = refl
granted-batch_outcome d (some o) = refl

-- A batch that is refused leaves the counters as they are.
abbrev Untouched : Counters → ApplyOutcome × Counters → Type 0
Untouched d r = granted r ≡ none → r.1 ≡ d

batch_outcome-Untouched :
    (d : Counters) (o : Option (List ℕ × Counters)) → Untouched d (batch_outcome d o)
batch_outcome-Untouched d none h = refl
batch_outcome-Untouched d (some o) h = cc

granted-roomy :
    (cap : ℕ) (es : List DenseAdvance) (d : Counters)
    → Sorted d
    → granted (advance_batch cap es d) ≡ roomy cap es d
unfolding advance_batch commit_scratch
granted-roomy cap es d h = elim (Bool-cases (ltb cap (len d + len (new_keys es d)))) [
  | inl full ↦ rw full refl
  | inr free ↦
      rw free (granted-batch_outcome d (fold_batch d es []) ∙ fold_batch-folded es [] d tt h)
]

advance_batch-Untouched :
    (cap : ℕ) (es : List DenseAdvance) (d : Counters) → Untouched d (advance_batch cap es d)
unfolding advance_batch
advance_batch-Untouched cap es d = elim (Bool-cases (ltb cap (len d + len (new_keys es d)))) [
  | inl full ↦ rw full (λ h. refl)
  | inr free ↦ rw free (batch_outcome-Untouched d (fold_batch d es []))
]

-- On counters in order, and no more of them than the cap: a batch gives out the blocks that its
-- entries would get one after another, and leaves the counters that they would leave; when one of
-- them would be refused, the whole batch is, and no counter moves.
pub batch-singles :
    (cap : ℕ) (es : List DenseAdvance) (d : Counters)
    → Sorted d
    → len d ≤ cap
    → (granted (advance_batch cap es d) ≡ singles cap es d)
      × (singles cap es d ≡ none → (advance_batch cap es d).1 ≡ d)
batch-singles cap es d h room =
    let same_blocks = granted-roomy cap es d h ∙ roomy-singles cap es d h room in
    (same_blocks, λ refused. advance_batch-Untouched cap es d (same_blocks ∙ refused))
