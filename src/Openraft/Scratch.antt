-- ===== src/Openraft/Scratch.antt =====
-- The scratch map of a batch against the counters themselves.
use mathlib.Core.Path.{subst}
use tsoracle.Prelude.{
  ℕ, ◌≡◌, refl, sym, ◌∙◌, ap, Option, none, some, List, [], ◌∷◌, checked_add_u64, arith,
}
use tsoracle.BTreeMap.{
  bytes_ord, same_eq, get, insert, get-insert, ext, Sorted, Above-Sorted, insert-Sorted, get-Above,
}
use tsoracle.Openraft.Entries.{DenseAdvance}
use tsoracle.Openraft.Counters.{
  Counters, or_zero, running_value, push, if_some, fold_batch, commit_scratch,
}

-- The entries one after another, with the room for new keys left aside.
unfoldable pub folded : List DenseAdvance → Counters → Option (List ℕ × Counters)
folded [] d = some ([], d)
folded (e ∷ es) d =
    if_some (checked_add_u64 (or_zero (get e.key.bytes d)) e.count)
      (λ next. push (or_zero (get e.key.bytes d)) (folded es (insert e.key.bytes next d)))

abbrev or_stored : Option ℕ → Option ℕ → Option ℕ
or_stored (some n) _ = some n
or_stored none stored = stored

get-commit_scratch :
    (k : List ℕ) (s d : Counters)
    → Sorted s
    → get k (commit_scratch s d) ≡ or_stored (get k s) (get k d)
unfolding commit_scratch get
get-commit_scratch k [] d h = refl
get-commit_scratch k ((j, n) ∷ s) d h = ground (
  arith,
  get-commit_scratch k s (insert j n d) (Above-Sorted j s h),
  get-insert k j n d,
  get-Above j s h,
  same_eq k j,
)

commit_scratch-Sorted : (s d : Counters) → Sorted d → Sorted (commit_scratch s d)
unfolding commit_scratch
commit_scratch-Sorted [] d h = h
commit_scratch-Sorted ((j, n) ∷ s) d h =
    commit_scratch-Sorted s (insert j n d) (insert-Sorted j n d h)

commit_scratch-insert :
    (k : List ℕ) (v : ℕ) (s d : Counters)
    → Sorted s
    → Sorted d
    → commit_scratch (insert k v s) d ≡ insert k v (commit_scratch s d)
commit_scratch-insert k v s d hs hd =
    ext (commit_scratch (insert k v s) d) (insert k v (commit_scratch s d))
      (commit_scratch-Sorted (insert k v s) d hd)
      (insert-Sorted k v (commit_scratch s d) (commit_scratch-Sorted s d hd))
      (λ j. ground (
        arith,
        get-commit_scratch j (insert k v s) d (insert-Sorted k v s hs),
        get-commit_scratch j s d hs,
        get-insert j k v s,
        get-insert j k v (commit_scratch s d),
      ))

abbrev pub committed_on : Counters → Option (List ℕ × Counters) → Option (List ℕ × Counters)
committed_on d none = none
committed_on d (some (starts, scratch)) = some (starts, commit_scratch scratch d)

committed-push :
    (n : ℕ) (d : Counters) (o : Option (List ℕ × Counters))
    → committed_on d (push n o) ≡ push n (committed_on d o)
committed-push n d none = refl
committed-push n d (some o) = refl

running_value_lem : (a b : Option ℕ) → running_value a b ≡ or_zero (or_stored a b)
running_value_lem none b = refl
running_value_lem (some n) b = refl

committed-if_some :
    (d : Counters) (o : Option ℕ) (f g : ℕ → Option (List ℕ × Counters))
    → ((n : ℕ) → committed_on d (f n) ≡ g n)
    → committed_on d (if_some o f) ≡ if_some o g
committed-if_some d none f g h = refl
committed-if_some d (some n) f g h = h n

-- The loop over the scratch map does what the entries do one after another.
pub fold_batch-folded :
    (es : List DenseAdvance) (s d : Counters)
    → Sorted s
    → Sorted d
    → committed_on d (fold_batch d es s) ≡ folded es (commit_scratch s d)
unfolding fold_batch folded
fold_batch-folded [] s d hs hd = refl
fold_batch-folded (e ∷ es) s d hs hd =
    let k = e.key.bytes in
    let start = running_value (get k s) (get k d) in
    subst
      (λ n.
        committed_on d (fold_batch d (e ∷ es) s)
        ≡ if_some (checked_add_u64 n e.count)
            (λ next. push n (folded es (insert k next (commit_scratch s d)))))
      (running_value_lem (get k s) (get k d) ∙ sym (ap or_zero (get-commit_scratch k s d hs)))
      (committed-if_some d (checked_add_u64 start e.count)
        (λ next. push start (fold_batch d es (insert k next s)))
        (λ next. push start (folded es (insert k next (commit_scratch s d))))
        (λ next.
          committed-push start d (fold_batch d es (insert k next s))
          ∙ ap (push start) (
              fold_batch-folded es (insert k next s) d (insert-Sorted k next s hs) hd
              ∙ ap (folded es) (commit_scratch-insert k next s d hs hd))))
