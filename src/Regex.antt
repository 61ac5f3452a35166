-- ===== src/Regex.antt =====
-- `std::regex` as far as usb.cpp and hard_disk.cpp use it: a list of alternatives, each a sequence
-- of byte classes taken once or under a greedy star, searched for from the left. Only the whole
-- match is read (`cmatch::str`), so a group that is not repeated leaves no trace. `c_str` cuts
-- the text at its first NUL.
pub mod Meaning
pub mod Search
pub mod Pieces
use storing_devices_logs_tfm.Base.{
  ℕ, Bool, true, ◌&&◌, ◌||◌, List, [], ◌∷◌, ◌++◌, map, Option, none, some, leb, ◌==◌, if◌then◌else◌,
  Bytes, text, not,
}

pub data Class : Type 0 where
  byte : ℕ → Class
  range : ℕ → ℕ → Class
  either : Class → Class → Class
  -- `.`, which takes all but a line's end
  dot : Class

abbrev pub in_class : Class → ℕ → Bool
in_class (byte n) x = x == n
in_class (range lo hi) x = leb lo x && leb x hi
in_class (either c d) x = in_class c x || in_class d x
in_class dot x = not (x == b'\n' || x == b'\r')

-- `c` and `c*`.
pub data Atom : Type 0 where
  one : Class → Atom
  many : Class → Atom

abbrev pub Pattern : Type 0
Pattern = List Atom

abbrev pub Regex : Type 0
Regex = List Pattern

-- A literal piece of a pattern.
unfoldable pub literal : Bytes → Pattern
literal [] = []
literal (c ∷ s) = one (byte c) ∷ literal s

abbrev pub digit : Class
digit = range b'0' b'9'

unfoldable pub cons_match : ℕ → Option Bytes → Option Bytes
cons_match x none = none
cons_match x (some m) = some (x ∷ m)

-- The text that the pattern takes at the start of `s`: a star tries the longest run first.
unfoldable pub match_at : Pattern → Bytes → Option Bytes
unfolding cons_match
match_at [] s = some []
match_at (one c ∷ p) [] = none
match_at (one c ∷ p) (x ∷ s) =
    let rest = cons_match x (match_at p s) in if in_class c x then rest else none
match_at (many c ∷ p) [] = match_at p []
match_at (many c ∷ p) (x ∷ s) =
    let longer = cons_match x (match_at (many c ∷ p) s) in
    let shorter = match_at p (x ∷ s) in
    if in_class c x then elim longer [ none ↦ shorter | some m ↦ some m ] else shorter

unfoldable pub first_match : Regex → Bytes → Option Bytes
first_match [] s = none
first_match (p ∷ r) s = elim (match_at p s) [ none ↦ first_match r s | some m ↦ some m ]

unfoldable pub search_from : Regex → Bytes → Option Bytes
search_from r [] = first_match r []
search_from r (x ∷ s) = elim (first_match r (x ∷ s)) [ none ↦ search_from r s | some m ↦ some m ]

-- What a function that takes a C string sees of a `std::string`.
unfoldable pub c_str : Bytes → Bytes
c_str [] = []
c_str (x ∷ s) = if x == 0 then [] else x ∷ c_str s

-- `regex_search(line.c_str(), found, r)`: `none` where it returns false, else `found.str()`.
unfoldable pub regex_search : Regex → Bytes → Option Bytes
unfolding c_str search_from
regex_search r line = search_from r (c_str line)

-- `found.str()` after any search: empty if nothing was found.
abbrev pub str : Option Bytes → Bytes
str none = []
str (some m) = m

abbrev pub is_found : Option Bytes → Bool
is_found none = Bool.false
is_found (some m) = true
