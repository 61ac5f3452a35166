-- ===== src/Output/Size.antt =====
-- humanReadableByteCount.
pub mod Digits
use storing_devices_logs_tfm.Base.{
  ℕ, zero, suc, ◌/◌, ltb, Bool, true, false, if◌then◌else◌, List, [], ◌∷◌, ◌++◌, Bytes, text,
  Outcome, done, fault, bad_index, out_of_range, ◌>>=◌,
}
use storing_devices_logs_tfm.Decimal.{natural}

-- The floating-point arithmetic of the machine: `(int) (log(bytes) / log(unit))`, and
-- `(unsigned long long) pow(unit, exp)`.
pub record Floats : Type 0 where
  pub log_ratio : ℕ → ℕ → ℕ
  pub pow : ℕ → ℕ → ℕ

abbrev pub unit_of : Bool → ℕ
unit_of si = if si then 1000 else 1024

-- `bytes + " B"` moves the pointer to the literal, which has two characters and its end.
unfoldable pub pointed_at : ℕ → Outcome Bytes
pointed_at zero = done (text " B")
pointed_at (suc zero) = done (text "B")
pointed_at (suc (suc zero)) = done []
pointed_at _ = fault bad_index

abbrev pub letters : Bool → Bytes
letters si = if si then text "kMGTPE" else text "KMGTPE"

-- The letter under an index; the character at the size of the string is the one that ends it.
unfoldable pub letter_at : ℕ → Bytes → Outcome Bytes
letter_at zero [] = done []
letter_at (suc n) [] = fault bad_index
letter_at zero (c ∷ s) = done (c ∷ [])
letter_at (suc n) (c ∷ s) = letter_at n s

-- `%s` of the prefix: the rest is not printed if the letter is the end of the string.
abbrev pub with_i : Bool → Bytes → Bytes
with_i si [] = []
with_i si (c ∷ s) = (c ∷ s) ++ (if si then [] else text "i")

unfoldable pub prefix : ℕ → Bool → Outcome Bytes
unfolding letter_at
prefix zero si = fault bad_index
prefix (suc n) si = letter_at n (letters si) >>= λ c. done (with_i si c)

unfoldable pub human_readable_byte_count : Floats → ℕ → Bool → Outcome Bytes
unfolding pointed_at prefix
human_readable_byte_count floats bytes si =
    let unit = unit_of si in
    let exp = floats.log_ratio bytes unit in
    if ltb bytes unit
    then pointed_at bytes
    else (prefix exp si >>= λ pre.
        done (natural (bytes / floats.pow unit exp) ++ (text " " ++ (pre ++ text "B"))))
