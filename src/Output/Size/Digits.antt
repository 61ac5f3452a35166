-- ===== src/Output/Size/Digits.antt =====
-- What humanReadableByteCount returns, where the machine's logarithm gives one of its prefixes.
use storing_devices_logs_tfm.Base.{
  ℕ, zero, suc, ◌+◌, ◌*◌, ◌/◌, ◌^◌, ◌<◌, ◌≤◌, ltb, Bool, true, false, if◌then◌else◌, ◌≡◌, refl, ap,
  arith, [], ◌∷◌, ◌++◌, drop, length, get_elem?, some, Bytes, text, done, fault, bad_index, ◌>>=◌,
}
use native.Mathlib.Nat.{one-le-pow, lt-div-mul-add, div-mul-le_self}
use storing_devices_logs_tfm.Decimal.{natural}
use storing_devices_logs_tfm.Output.Size.{
  Floats, unit_of, pointed_at, letters, letter_at, with_i, prefix, human_readable_byte_count,
}

-- For the counts of one unit or more that an `unsigned long long` holds, the truncated quotient of
-- the logarithms is one of 1 to 6, and the power of a unit to such an exponent is exact.
pub record IsInRange (floats : Floats) : Type 0 where
  pub some_prefix :
      (bytes : ℕ) (si : Bool)
      → unit_of si ≤ bytes
      → bytes < 2 ^ 64
      → (n : ℕ) × (floats.log_ratio bytes (unit_of si) ≡ suc n) × (n < 6)
  pub exact : (n : ℕ) (si : Bool) → n < 6 → floats.pow (unit_of si) (suc n) ≡ unit_of si ^ suc n

-- The letter and what stands behind it.
abbrev pub prefix_of : Bool → ℕ → Bytes
prefix_of si c = c ∷ (if si then [] else text "i")

letter_at-get_elem? :
    (n : ℕ) (s : Bytes)
    → n < length s
    → (c : ℕ) × (get_elem? s n ≡ some c) × (letter_at n s ≡ done (c ∷ []))
unfolding letter_at
letter_at-get_elem? n [] h = absurd (omega arith)
letter_at-get_elem? zero (c ∷ s) h = (c, refl, refl)
letter_at-get_elem? (suc n) (c ∷ s) h = letter_at-get_elem? n s (omega arith)

length-letters : (si : Bool) → length (letters si) ≡ 6
unfolding text
length-letters true = refl
length-letters false = refl

prefix-letters :
    (n : ℕ) (si : Bool)
    → n < 6
    → (c : ℕ) × (get_elem? (letters si) n ≡ some c) × (prefix (suc n) si ≡ done (prefix_of si c))
unfolding prefix
prefix-letters n si h =
    let (c, e, k) = letter_at-get_elem? n (letters si) (omega (arith, length-letters si)) in
    (c, e, ap (λ m. m >>= λ x. done (with_i si x)) k)

unit_power_pos : (si : Bool) (n : ℕ) → 0 < unit_of si ^ n
unit_power_pos true n = one-le-pow n 1000 (omega arith)
unit_power_pos false n = one-le-pow n 1024 (omega arith)

quotient_bounds : (a b : ℕ) → 0 < b → (a / b * b ≤ a) × (a < (a / b + 1) * b)
quotient_bounds a b h =
    let high : a < a / b * b + b = lt-div-mul-add h in (div-mul-le_self a b, grind (arith, high))

-- For a count of at least one unit that fits an unsigned long long, on a machine whose logarithm
-- gives one of the six prefixes and whose powers are exact, humanReadableByteCount returns the
-- quotient by the power of the unit, rounded down and without a fraction, a space, the letter of
-- that power and `B`, with an `i` in between for binary units.
pub human_readable_byte_count-digits :
    (floats : Floats) (bytes : ℕ) (si : Bool)
    → IsInRange floats
    → unit_of si ≤ bytes
    → bytes < 2 ^ 64
    → (n q c : ℕ) × (floats.log_ratio bytes (unit_of si) ≡ suc n)
      × (get_elem? (letters si) n ≡ some c)
      × (human_readable_byte_count floats bytes si
          ≡ done (natural q ++ (text " " ++ (prefix_of si c ++ text "B"))))
      × (q * unit_of si ^ suc n ≤ bytes)
      × (bytes < (q + 1) * unit_of si ^ suc n)
unfolding human_readable_byte_count
human_readable_byte_count-digits floats bytes si r h b =
    let (n, e, k) = r.some_prefix bytes si h b in
    let (c, l, p) = prefix-letters n si k in
    let q = bytes / (unit_of si ^ suc n) in
    let (low, high) = quotient_bounds bytes (unit_of si ^ suc n) (unit_power_pos si (suc n)) in
    let large : ltb bytes (unit_of si) ≡ false = ground arith in
    (n, q, c, e, l, rw (large, e, p, r.exact n si k) refl, low, high)

pointed_at-drop :
    (n : ℕ)
    → (n ≤ 2 → pointed_at n ≡ done (drop n (text " B"))) × (3 ≤ n → pointed_at n ≡ fault bad_index)
unfolding pointed_at text
pointed_at-drop zero = (λ h. refl, λ h. absurd (omega arith))
pointed_at-drop (suc zero) = (λ h. refl, λ h. absurd (omega arith))
pointed_at-drop (suc (suc zero)) = (λ h. refl, λ h. absurd (omega arith))
pointed_at-drop (suc (suc (suc n))) = (λ h. absurd (omega arith), λ h. refl)

-- For a count below one unit, humanReadableByteCount returns what is left of ` B` behind that many
-- characters if the count is at most 2, and otherwise reads outside the literal.
pub human_readable_byte_count-small :
    (floats : Floats) (bytes : ℕ) (si : Bool)
    → bytes < unit_of si
    → (bytes ≤ 2 → human_readable_byte_count floats bytes si ≡ done (drop bytes (text " B")))
      × (3 ≤ bytes → human_readable_byte_count floats bytes si ≡ fault bad_index)
unfolding human_readable_byte_count
human_readable_byte_count-small floats bytes si h =
    let small : ltb bytes (unit_of si) ≡ true = ground arith in rw small (pointed_at-drop bytes)
