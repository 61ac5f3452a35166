-- ===== src/Decimal.antt =====
-- `std::to_string` and `<<` of an integer.
pub mod RoundTrip
use storing_devices_logs_tfm.Base.{
  ℕ, zero, suc, ◌+◌, ◌/◌, ◌%◌, List, [], ◌∷◌, ltb, if◌then◌else◌, Bytes, ℤ, pos, negsuc,
}

-- The digits of `n` in front of `rest`. One more round than `n` is enough.
unfoldable pub digits_onto : ℕ → ℕ → Bytes → Bytes
digits_onto zero n rest = rest
digits_onto (suc fuel) n rest =
    let higher = digits_onto fuel (n / 10) ((n % 10 + b'0') ∷ rest) in
    if ltb n 10 then (n + b'0') ∷ rest else higher

unfoldable pub natural : ℕ → Bytes
natural n = digits_onto (suc n) n []

unfoldable pub to_string : ℤ → Bytes
to_string (pos n) = natural n
to_string (negsuc n) = b'-' ∷ natural (suc n)
