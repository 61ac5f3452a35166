-- ===== src/Identity/Captures.antt =====
-- `std::regex_match` with one group: an atom that stands in the group is marked, and the match is
-- the text of the group.
use storing_devices_logs_tfm.Base.{
  ℕ, Bool, true, false, if◌then◌else◌, List, [], ◌∷◌, ◌++◌, map, Option, none, some, Bytes, text,
}
use storing_devices_logs_tfm.Regex.{
  Class, range, either, dot, Atom, one, many, in_class, Pattern, literal,
}

abbrev pub outside : Pattern → List (Atom × Bool)
outside p = map (λ a. (a, false)) p

-- `\S`: the bytes that are no white space.
abbrev pub not_space : Class
not_space = either (range 0 8) (either (range 14 31) (range 33 255))

-- `.*serial_short=(\S+).*`
abbrev pub serial_regex : List (Atom × Bool)
serial_regex =
    outside (many dot ∷ literal (text "serial_short="))
    ++ ((one not_space, true) ∷ (many not_space, true) ∷ (many dot, false) ∷ [])

unfoldable pub keep : Bool → ℕ → Option Bytes → Option Bytes
keep marked x none = none
keep marked x (some m) = some (if marked then x ∷ m else m)

-- The group's text if the pattern takes the whole text: a star tries the longest run first.
unfoldable pub full_match : List (Atom × Bool) → Bytes → Option Bytes
unfolding keep
full_match [] [] = some []
full_match [] (x ∷ s) = none
full_match ((one c, g) ∷ p) [] = none
full_match ((one c, g) ∷ p) (x ∷ s) =
    let rest = keep g x (full_match p s) in if in_class c x then rest else none
full_match ((many c, g) ∷ p) [] = full_match p []
full_match ((many c, g) ∷ p) (x ∷ s) =
    let longer = keep g x (full_match ((many c, g) ∷ p) s) in
    let shorter = full_match p (x ∷ s) in
    if in_class c x then elim longer [ none ↦ shorter | some m ↦ some m ] else shorter
