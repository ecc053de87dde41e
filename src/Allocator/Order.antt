-- ===== src/Allocator/Order.antt =====
-- What one leader issues, over any sequence of calls.
use tsoracle.Prelude.{ℕ, ◌+◌, ◌≤◌, ◌<◌, ◌≡◌, refl, List, [], ◌∷◌, Result, ok, err, arith}
use tsoracle.Epoch.{Epoch}
use tsoracle.CoreError.{CoreError, PhysicalMs, InRange}
use tsoracle.Allocator.{
  Allocator, Leader, leader, not_leader, WindowGrant, try_grant, try_commit_window_extension,
}
use tsoracle.Allocator.Invariant.{IsSound, IsValid, position, try_grant-IsValid, commit-IsValid}
use tsoracle.Allocator.Grants.{Answers, try_grant-Answers}

-- The calls that a leader's allocator takes until it steps down.
pub data Call : Type 0 where
  grants : (now_ms count : ℕ) → Call
  commits : (persisted : PhysicalMs) (expected : Epoch) → Call

abbrev pub WellTyped : Call → Type 0
WellTyped (grants now count) = Unit
WellTyped (commits p e) = InRange p

abbrev note : Result CoreError WindowGrant → List WindowGrant → List WindowGrant
note (ok g) gs = g ∷ gs
note (err e) gs = gs

-- The blocks issued, oldest first.
unfoldable pub issued : Allocator → List Call → List WindowGrant
issued a [] = []
issued a (grants now count ∷ cs) = let (r, a') = try_grant a now count in note r (issued a' cs)
issued a (commits p e ∷ cs) = issued (try_commit_window_extension a p e).1 cs

-- Each block begins at or past `n`, and at or past the end of the block before it.
abbrev pub Ascending : ℕ → List WindowGrant → Type 0
Ascending n [] = Unit
Ascending n (g ∷ gs) =
    (n ≤ position g.physical_ms g.logical_start)
    × (0 < g.count)
    × Ascending (position g.physical_ms g.logical_start + g.count) gs

abbrev pub AllTyped : List Call → Type 0
AllTyped [] = Unit
AllTyped (c ∷ cs) = WellTyped c × AllTyped cs

abbrev After : Allocator → List WindowGrant → Type 0
After not_leader gs = gs ≡ []
After (leader l) gs = Ascending (position l.next_physical_ms l.next_logical) gs

note-Ascending :
    (l : Leader) (now count : ℕ) (r : Result CoreError WindowGrant × Allocator)
    (gs : List WindowGrant)
    → Answers l now count r
    → After r.1 gs
    → After (leader l) (note r.0 gs)
note-Ascending l now count (ok g, leader l') gs h k = ground arith
note-Ascending l now count (ok g, not_leader) gs h k = absurd h
note-Ascending l now count (err e, not_leader) gs h k = absurd h
note-Ascending l now count (err e, leader l') gs h k = ground arith

commit_cursor :
    (l : Leader) (p : PhysicalMs) (e : Epoch) (gs : List WindowGrant)
    → After (try_commit_window_extension (leader l) p e).1 gs
    → After (leader l) gs
unfolding try_commit_window_extension
commit_cursor l p e gs h = ground arith

idle_grant :
    (now count : ℕ) (gs : List WindowGrant)
    → (note (try_grant not_leader now count).0 gs ≡ gs)
      × ((try_grant not_leader now count).1 ≡ not_leader)
unfolding try_grant
idle_grant now count gs = ground arith

idle_commit :
    (p : PhysicalMs) (e : Epoch) → (try_commit_window_extension not_leader p e).1 ≡ not_leader
unfolding try_commit_window_extension
idle_commit p e = refl

issued-After : (cs : List Call) (a : Allocator) → IsValid a → AllTyped cs → After a (issued a cs)
unfolding issued
issued-After [] not_leader v t = refl
issued-After [] (leader l) v t = tt
issued-After (grants now count ∷ cs) not_leader v t =
    ground (arith, idle_grant now count (issued not_leader cs), issued-After cs not_leader tt t.1)
issued-After (grants now count ∷ cs) (leader l) v t =
    note-Ascending l now count (try_grant (leader l) now count)
      (issued (try_grant (leader l) now count).1 cs) (try_grant-Answers l now count v)
      (issued-After cs (try_grant (leader l) now count).1 (try_grant-IsValid (leader l) now count v)
        t.1)
issued-After (commits p e ∷ cs) not_leader v t =
    rw (idle_commit p e) (issued-After cs not_leader tt t.1)
issued-After (commits p e ∷ cs) (leader l) v t =
    commit_cursor l p e (issued (try_commit_window_extension (leader l) p e).1 cs) (
      issued-After cs (try_commit_window_extension (leader l) p e).1
        (commit-IsValid (leader l) p e t.0 v) t.1)

-- From a sound leader, over any sequence of grants, failed grants and commits of bounds that are
-- in the 46-bit range, with clocks that jump in both directions: every block that is issued
-- begins at or past the end of the one before it, and the first at or past the leader's cursor.
pub issued-Ascending :
    (l : Leader) (cs : List Call)
    → IsSound l
    → AllTyped cs
    → Ascending (position l.next_physical_ms l.next_logical) (issued (leader l) cs)
issued-Ascending l cs v t = issued-After cs (leader l) v t
