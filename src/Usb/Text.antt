-- ===== src/Usb/Text.antt =====
-- The expressions of usb.cpp, and how it reads a value out of a match.
use mathlib.Core.Option
use storing_devices_logs_tfm.Base.{
  ℕ, zero, suc, ◌+◌, ◌-◌, ◌*◌, ◌^◌, Bool, true, false, ◌&&◌, ◌||◌, [], ◌∷◌, ◌++◌, Option, none,
  some, ℤ, pos, negsuc, ltb, leb, ◌==◌, if◌then◌else◌, Bytes, text, length, take, drop, Outcome,
  done, fault, uninitialised, out_of_range,
}
use storing_devices_logs_tfm.Regex.{
  Class, byte, range, either, dot, one, many, Pattern, Regex, literal, digit, regex_search, str,
}

-- [0-9]-[0-9]
abbrev pub id_pattern : Pattern
id_pattern = one digit ∷ one (byte b'-') ∷ one digit ∷ []

abbrev pub interface_id_regex : Regex
interface_id_regex = id_pattern ∷ []

-- usb-storage [0-9]-[0-9]
abbrev pub storage_regex : Regex
storage_regex = (literal (text "usb-storage ") ++ id_pattern) ∷ []

-- usb [0-9]-[0-9]
abbrev pub usb_regex : Regex
usb_regex = (literal (text "usb ") ++ id_pattern) ∷ []

-- usb [0-9]-[0-9]: new
abbrev pub new_usb_regex : Regex
new_usb_regex = (literal (text "usb ") ++ (id_pattern ++ literal (text ": new"))) ∷ []

abbrev letter : Class
letter = either (range b'A' b'Z') (range b'a' b'z')

abbrev pub two_digits : Pattern
two_digits = one digit ∷ one digit ∷ []

-- [0-9]{2}:[0-9]{2}:[0-9]{2}
abbrev pub time_pattern : Pattern
time_pattern = two_digits ++ (one (byte b':') ∷ (two_digits ++ (one (byte b':') ∷ two_digits)))

-- [1-31] is one of 1, 2 and 3.
abbrev pub day_class : Class
day_class = either (range b'1' b'3') (byte b'1')

-- ([A-Z]|[a-z]){3}.*[1-31].*[0-9]{2}:[0-9]{2}:[0-9]{2}
abbrev pub date_regex : Regex
date_regex =
    (one letter ∷ one letter ∷ one letter ∷ many dot ∷ one day_class ∷ many dot ∷ time_pattern) ∷ []

abbrev pub disconnection_found_regex : Regex
disconnection_found_regex = literal (text "USB disconnect") ∷ []

abbrev pub id_vendor_and_id_product_regex : Regex
id_vendor_and_id_product_regex = literal (text "USB device found") ∷ []

abbrev pub id_vendor_regex : Regex
id_vendor_regex = (literal (text "idVendor=") ++ (many digit ∷ [])) ∷ []

abbrev pub id_product_regex : Regex
id_product_regex = (literal (text "idProduct=") ++ (many digit ∷ [])) ∷ []

abbrev pub serial_number_regex : Regex
serial_number_regex = (literal (text "SerialNumber: ") ++ (many dot ∷ [])) ∷ []

abbrev pub product_name_regex : Regex
product_name_regex = (literal (text "Product: ") ++ (many dot ∷ [])) ∷ []

abbrev pub manufacturer_regex : Regex
manufacturer_regex = (literal (text "Manufacturer: ") ++ (many dot ∷ [])) ∷ []

unfoldable pub get_interface_id_from_regex : Bytes → Bytes
get_interface_id_from_regex regex_result = str (regex_search interface_id_regex regex_result)

-- `s.find(c)`, with `none` for `npos`.
unfoldable pub index_of : ℕ → Bytes → Option ℕ
index_of c [] = none
index_of c (x ∷ s) = if x == c then some 0 else Option.map suc (index_of c s)

-- `s.find(c) + k` for a `k` of 1 or more: `npos` is the largest `size_t`, and the sum wraps.
unfoldable pub behind : ℕ → Option ℕ → ℕ
behind k none = k - 1
behind k (some i) = i + k

unfoldable pub substr : Bytes → ℕ → ℕ → Outcome Bytes
substr s from n = if ltb (length s) from then fault out_of_range else done (take n (drop from s))

-- `found.substr(found.find(c) + k, found.length())`.
unfoldable pub value_behind : ℕ → ℕ → Bytes → Outcome Bytes
value_behind c k found = substr found (behind k (index_of c found)) (length found)

abbrev pub is_digit : ℕ → Bool
is_digit c = leb b'0' c && leb c b'9'

abbrev is_space : ℕ → Bool
is_space c = c == b' ' || (leb 9 c && leb c 13)

unfoldable pub skip_spaces : Bytes → Bytes
skip_spaces [] = []
skip_spaces (x ∷ s) = let rest = skip_spaces s in if is_space x then rest else x ∷ s

-- The digits at the start, as a decimal number behind `acc`.
unfoldable pub digits_value : ℕ → Bytes → ℕ
digits_value acc [] = acc
digits_value acc (x ∷ s) =
    let rest = digits_value (acc * 10 + (x - b'0')) s in if is_digit x then rest else acc

-- Out of the range of `int`, `>>` stores the nearest bound.
clamp_int : Bool → ℕ → ℤ
clamp_int false n = pos (if ltb n (2 ^ 31) then n else 2 ^ 31 - 1)
clamp_int true zero = pos 0
clamp_int true (suc n) = negsuc (if ltb n (2 ^ 31) then n else 2 ^ 31 - 1)

signed_value : Bytes → ℤ
unfolding clamp_int
signed_value [] = pos 0
signed_value (x ∷ s) =
    if x == b'-'
    then clamp_int true (digits_value 0 s)
    else clamp_int false (digits_value 0 (if x == b'+' then s else x ∷ s))

-- `ss << s; ss >> result`: at the end of the text `>>` writes nothing to `result`.
read_int : Bytes → Outcome ℤ
unfolding signed_value
read_int [] = fault uninitialised
read_int (x ∷ s) = done (signed_value (x ∷ s))

unfoldable pub string_to_int : Bytes → Outcome ℤ
unfolding skip_spaces read_int
string_to_int s = read_int (skip_spaces s)
