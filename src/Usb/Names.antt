-- ===== src/Usb/Names.antt =====
-- The name of an interface: one digit, a dash, one digit.
use storing_devices_logs_tfm.Base.{
  ℕ, true, ◌≡◌, ap, subst, sym, ◌∙◌, arith, [], ◌∷◌, ◌++◌, some, Bytes, text, ==_iff,
}
use storing_devices_logs_tfm.Regex.{Regex, digit, in_class, regex_search, match_at, first_match}
use storing_devices_logs_tfm.Regex.Meaning.{Matches, stop, once}
use storing_devices_logs_tfm.Regex.Pieces.{regex_search-Matches, literal-Matches}
use storing_devices_logs_tfm.Usb.Text.{id_pattern, usb_regex, get_interface_id_from_regex}
use storing_devices_logs_tfm.Usb.Checks.{id_in, interface_of}

-- `name` is a digit, a dash and a digit.
pub record IsPort (name : Bytes) : Type 0 where
  pub bus : ℕ
  pub port : ℕ
  pub bus_is_digit : in_class digit bus ≡ true
  pub port_is_digit : in_class digit port ≡ true
  pub is_name : name ≡ bus ∷ b'-' ∷ port ∷ []

id_pattern-IsPort : {m : Bytes} → Matches id_pattern m → IsPort m
id_pattern-IsPort (once {x = a} h (once {x = x} k (once {x = b} l stop))) = record {
  bus = a;
  port = b;
  bus_is_digit = h;
  port_is_digit = l;
  is_name = ap (λ y. a ∷ y ∷ b ∷ []) ((==_iff x b'-').0 k);
}

id_behind_usb :
    (a b : ℕ)
    → in_class digit a ≡ true
    → in_class digit b ≡ true
    → get_interface_id_from_regex (text "usb " ++ (a ∷ b'-' ∷ b ∷ [])) ≡ a ∷ b'-' ∷ b ∷ []
unfolding get_interface_id_from_regex text regex_search match_at first_match
id_behind_usb a b h k = ground arith

found_name :
    (r : Regex) (line : Bytes) {m : Bytes}
    → regex_search r line ≡ some m
    → id_in r line ≡ get_interface_id_from_regex m
found_name r line h = ground arith

-- If the expression for a USB line is found in a line, the interface of the line is one digit, a
-- dash and one digit, and the text that was found is `usb ` with exactly this name behind it:
-- further digits of the port are no part of the name.
pub interface_of-IsPort :
    (line : Bytes) {m : Bytes}
    → regex_search usb_regex line ≡ some m
    → IsPort (interface_of line) × (m ≡ text "usb " ++ interface_of line)
interface_of-IsPort line {m} h =
    let (r, e, k) = literal-Matches (text "usb ") (regex_search-Matches _ line h) in
    let p = id_pattern-IsPort k in
    let named : interface_of line ≡ r =
      found_name usb_regex line h
      ∙ ap get_interface_id_from_regex (e ∙ ap (◌++◌ (text "usb ")) p.is_name)
      ∙ id_behind_usb p.bus p.port p.bus_is_digit p.port_is_digit
      ∙ sym p.is_name in
    (subst IsPort (sym named) p, e ∙ ap (◌++◌ (text "usb ")) (sym named))
