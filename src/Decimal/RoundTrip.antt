-- ===== src/Decimal/RoundTrip.antt =====
-- stringToInt on what `std::to_string` writes.
use storing_devices_logs_tfm.Base.{
  ℕ, zero, suc, ◌+◌, ◌*◌, ◌/◌, ◌%◌, ◌^◌, ◌<◌, ◌≡◌, refl, ap, sym, ◌∙◌, arith, [], ◌∷◌, ltb, Bytes,
  pos, done, inl, inr, Bool-cases, true,
}
use storing_devices_logs_tfm.Regex.{digit, in_class}
use storing_devices_logs_tfm.Usb.Text.{digits_value, string_to_int}
use storing_devices_logs_tfm.Usb.Fields.{string_to_int-digits}
use storing_devices_logs_tfm.Decimal.{digits_onto, natural, to_string}

digits_value-digit :
    (acc d : ℕ) (rest : Bytes)
    → d < 10
    → digits_value acc ((d + b'0') ∷ rest) ≡ digits_value (acc * 10 + d) rest
unfolding digits_value
digits_value-digit acc d rest h = ground arith

pub digits_value-digits_onto :
    (fuel n : ℕ) (rest : Bytes)
    → n < fuel
    → digits_value 0 (digits_onto fuel n rest) ≡ digits_value n rest
unfolding digits_onto
digits_value-digits_onto zero n rest h = absurd (omega arith)
digits_value-digits_onto (suc fuel) n rest h = elim (Bool-cases (ltb n 10)) [
  | inl t ↦
      rw t
        (digits_value-digit 0 n rest (ground arith) ∙ ap (λ k. digits_value k rest) (omega arith))
  | inr t ↦ rw t (
      digits_value-digits_onto fuel (n / 10) ((n % 10 + b'0') ∷ rest) (ground arith)
      ∙ digits_value-digit (n / 10) (n % 10) rest (omega arith)
      ∙ ap (λ k. digits_value k rest) (omega arith))
]

-- The first byte is a digit.
pub digits_onto-cons :
    (fuel n : ℕ) (rest : Bytes)
    → n < fuel
    → (d : ℕ) × (ds : Bytes) × (digits_onto fuel n rest ≡ d ∷ ds) × (in_class digit d ≡ true)
unfolding digits_onto
digits_onto-cons zero n rest h = absurd (omega arith)
digits_onto-cons (suc fuel) n rest h = elim (Bool-cases (ltb n 10)) [
  | inl t ↦ (n + b'0', rest, rw t, ground arith)
  | inr t ↦
      let (d, ds, e, k) = digits_onto-cons fuel (n / 10) ((n % 10 + b'0') ∷ rest) (ground arith) in
      (d, ds, rw t e, k)
]

-- stringToInt reads back every number below 2 ^ 31 that std::to_string has written.
pub string_to_int-to_string :
    (n : ℕ) → n < 2 ^ 31 → string_to_int (to_string (pos n)) ≡ done (pos n)
unfolding to_string natural
string_to_int-to_string n h =
    let (d, ds, e, k) = digits_onto-cons (suc n) n [] (omega arith) in
    let v : digits_value 0 (d ∷ ds) ≡ n =
      ap (digits_value 0) (sym e)
      ∙ digits_value-digits_onto (suc n) n [] (omega arith)
      ∙ unfold digits_value in refl in
    rw e (string_to_int-digits d ds k ∙ rw v (ground arith))
