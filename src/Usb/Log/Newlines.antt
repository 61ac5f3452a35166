-- ===== src/Usb/Log/Newlines.antt =====
-- What the lines of the log are.
use storing_devices_logs_tfm.Base.{
  ℕ, Bool, true, false, if◌then◌else◌, ◌==◌, ==_iff, ◌≡◌, ◌≢◌, refl, ap, ◌∙◌, sym, arith, List, [],
  ◌∷◌, ◌++◌, All, Bytes, inl, inr, Bool-cases,
}
use storing_devices_logs_tfm.Usb.Values.{lacks}
use storing_devices_logs_tfm.Usb.Log.{begin_line, get_lines}
use storing_devices_logs_tfm.Mounts.Split.{unsplit}

-- Behind a byte, or at the start: the text is empty or its last byte is a newline.
abbrev pub ends_line : Bool → Bytes → Bool
ends_line at_start [] = at_start
ends_line at_start (c ∷ s) = ends_line (c == b'\n') s

-- The text with a newline at the end, if it has none there.
abbrev pub with_last_newline : Bytes → Bytes
with_last_newline s = if ends_line true s then s else s ++ b'\n' ∷ []

begin_line-lacks :
    (c : ℕ) (lines : List Bytes)
    → (c == b'\n') ≡ false
    → All (λ t. lacks b'\n' t ≡ true) lines
    → All (λ t. lacks b'\n' t ≡ true) (begin_line c lines)
unfolding begin_line
begin_line-lacks c [] h a = ground (arith, h)
begin_line-lacks c (t ∷ lines) h a = ground (arith, h, a.0, a.1)

get_lines-lacks : (s : Bytes) → All (λ line. lacks b'\n' line ≡ true) (get_lines s)
unfolding get_lines
get_lines-lacks [] = tt
get_lines-lacks (c ∷ s) = elim (Bool-cases (c == b'\n')) [
  | inl e ↦ rw e (refl, get_lines-lacks s)
  | inr e ↦ rw e (begin_line-lacks c (get_lines s) e (get_lines-lacks s))
]

-- A byte in front of the first line, where there is one.
begin_line-unsplit :
    (c : ℕ) (lines : List Bytes)
    → unsplit lines b'\n' ≢ []
    → unsplit (begin_line c lines) b'\n' ≡ c ∷ unsplit lines b'\n'
unfolding begin_line
begin_line-unsplit c [] h = absurd (h refl)
begin_line-unsplit c (line ∷ lines) h = refl

with_last_newline-filled : (x : ℕ) (s : Bytes) → with_last_newline (x ∷ s) ≢ []
with_last_newline-filled x s = ground arith

newline_first :
    (c : ℕ) (s : Bytes)
    → (c == b'\n') ≡ true
    → b'\n' ∷ with_last_newline s ≡ with_last_newline (c ∷ s)
newline_first c s e = ground (arith, (==_iff c b'\n').0 e)

other_first : (c x : ℕ) (s : Bytes) → c ∷ with_last_newline (x ∷ s) ≡ with_last_newline (c ∷ x ∷ s)
other_first c x s = ground arith

get_lines-newline : (c : ℕ) (s : Bytes) → (c == b'\n') ≡ true → get_lines (c ∷ s) ≡ [] ∷ get_lines s
unfolding get_lines
get_lines-newline c s e = rw e

get_lines-other :
    (c : ℕ) (s : Bytes) → (c == b'\n') ≡ false → get_lines (c ∷ s) ≡ begin_line c (get_lines s)
unfolding get_lines
get_lines-other c s e = rw e

abbrev joined : List Bytes → Bytes
joined lines = unsplit lines b'\n'

-- One byte, given what the rest is.
module _ (c : ℕ) (s : Bytes) (rest : joined (get_lines s) ≡ with_last_newline s) where
  behind_newline : (c == b'\n') ≡ true → joined (get_lines (c ∷ s)) ≡ with_last_newline (c ∷ s)
  behind_newline e =
      ap joined (get_lines-newline c s e) ∙ ap (λ t. b'\n' ∷ t) rest ∙ newline_first c s e

  behind_other :
      (c == b'\n') ≡ false
      → with_last_newline s ≢ []
      → c ∷ with_last_newline s ≡ with_last_newline (c ∷ s)
      → joined (get_lines (c ∷ s)) ≡ with_last_newline (c ∷ s)
  behind_other e filled first =
      ap joined (get_lines-other c s e)
      ∙ begin_line-unsplit c (get_lines s) (λ n. filled (sym rest ∙ n))
      ∙ ap (λ t. c ∷ t) rest
      ∙ first

one_byte : (c : ℕ) → (c == b'\n') ≡ false → joined (get_lines (c ∷ [])) ≡ with_last_newline (c ∷ [])
unfolding get_lines begin_line
one_byte c e = rw e

get_lines-with_last_newline : (s : Bytes) → joined (get_lines s) ≡ with_last_newline s
get_lines-with_last_newline [] = unfold get_lines in refl
get_lines-with_last_newline (c ∷ []) = elim (Bool-cases (c == b'\n')) [
  | inl e ↦ behind_newline c [] (get_lines-with_last_newline []) e
  | inr e ↦ one_byte c e
]
get_lines-with_last_newline (c ∷ x ∷ s) =
    let rest = get_lines-with_last_newline (x ∷ s) in
    elim (Bool-cases (c == b'\n')) [
      | inl e ↦ behind_newline c (x ∷ s) rest e
      | inr e ↦ behind_other c (x ∷ s) rest e (with_last_newline-filled x s) (other_first c x s)
    ]

-- No line of the log holds a newline, and the lines with a newline behind each are the log itself,
-- if it is empty or ends with a newline, and otherwise the log with one newline more at the end.
pub get_lines-unsplit :
    (s : Bytes)
    → All (λ line. lacks b'\n' line ≡ true) (get_lines s)
      × (unsplit (get_lines s) b'\n' ≡ (if ends_line true s then s else s ++ b'\n' ∷ []))
get_lines-unsplit s = (get_lines-lacks s, get_lines-with_last_newline s)
