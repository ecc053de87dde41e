-- ===== src/Records/Utf8.antt =====
-- `std::str::from_utf8`: which byte strings are UTF-8, by the table of well-formed sequences.
use tsoracle.Prelude.{
  ℕ, zero, suc, Bool, true, false, ◌&&◌, leb, ltb, if◌then◌else◌, Option, none, some, List, [], ◌∷◌,
}

-- What is still due: nothing, or a byte in a range and then so many continuation bytes.
pub data Due : Type 0 where
  start : Due
  next : (low high more : ℕ) → Due

abbrev in_range : ℕ → ℕ → ℕ → Bool
in_range low high b = leb low b && leb b high

abbrev after_lead : ℕ → Option Due
after_lead b =
    if ltb b 0x80
    then some start
    else if in_range 0xc2 0xdf b
    then some (next 0x80 0xbf 0)
    else if in_range 0xe0 0xe0 b
    then some (next 0xa0 0xbf 1)
    else if in_range 0xed 0xed b
    then some (next 0x80 0x9f 1)
    else if in_range 0xe1 0xef b
    then some (next 0x80 0xbf 1)
    else if in_range 0xf0 0xf0 b
    then some (next 0x90 0xbf 2)
    else if in_range 0xf1 0xf3 b
    then some (next 0x80 0xbf 2)
    else if in_range 0xf4 0xf4 b
    then some (next 0x80 0x8f 2)
    else none

abbrev continued : ℕ → Due
continued zero = start
continued (suc n) = next 0x80 0xbf n

abbrev step : Due → ℕ → Option Due
step start b = after_lead b
step (next low high more) b = if in_range low high b then some (continued more) else none

abbrev is_start : Due → Bool
is_start start = true
is_start (next low high more) = false

unfoldable pub reads_utf8 : Option Due → List ℕ → Bool
reads_utf8 none bs = false
reads_utf8 (some due) [] = is_start due
reads_utf8 (some due) (b ∷ bs) = reads_utf8 (step due b) bs

unfoldable pub is_utf8 : List ℕ → Bool
unfolding reads_utf8
is_utf8 bs = reads_utf8 (some start) bs
