-- ===== src/Usb/Fields.antt =====
-- What the expressions with a label find in a line, and the value that is read from it.
use storing_devices_logs_tfm.Base.{
  ℕ, ◌-◌, ◌^◌, ◌⊎◌, inl, inr, true, ◌≡◌, refl, ap, ◌∙◌, arith, [], ◌∷◌, ◌++◌, some, none, Bytes,
  All, done, fault, uninitialised, ltb, length, length-append, Option-cases, append_assoc,
  if◌then◌else◌, ℤ, pos,
}
use storing_devices_logs_tfm.Regex.{Regex, many, dot, digit, in_class, literal, regex_search}
use storing_devices_logs_tfm.Regex.Pieces.{regex_search-Matches, literal-Matches, many-Matches}
use storing_devices_logs_tfm.Usb.Text.{
  digits_value, string_to_int, value_behind, index_of, behind, substr,
}
use storing_devices_logs_tfm.Usb.Values.{value_behind-append, lacks}
use storing_devices_logs_tfm.Usb.Checks.{field_of, number_of}

-- Digits are read as a decimal number, and past the range of `int` as its largest value.
pub string_to_int-digits :
    (d : ℕ) (ds : Bytes)
    → in_class digit d ≡ true
    → string_to_int (d ∷ ds)
      ≡ done (
          pos (
            if ltb (digits_value 0 (d ∷ ds)) (2 ^ 31) then digits_value 0 (d ∷ ds) else 2 ^ 31 - 1))
unfolding string_to_int
string_to_int-digits d ds h = ground arith

-- With no digit the variable is returned that `>>` has not written.
pub string_to_int-nil : string_to_int [] ≡ fault uninitialised
unfolding string_to_int
string_to_int-nil = refl

abbrev pub colon : Bytes
colon = b':' ∷ b' ' ∷ []

-- `label: .*` finds the label, and the field is the rest of the match.
pub record FieldFound (label line m : Bytes) (r : Regex) : Type 0 where
  pub value : Bytes
  pub splits : m ≡ (label ++ colon) ++ value
  pub on_line : All (λ x. in_class dot x ≡ true) value
  pub returned : field_of r line ≡ done value

field_at :
    (r : Regex) (label line v : Bytes) {m : Bytes}
    → regex_search r line ≡ some m
    → m ≡ (label ++ colon) ++ v
    → lacks b':' label ≡ true
    → field_of r line ≡ done v
unfolding field_of
field_at r label line v found e h =
    rw (found, e, append_assoc label colon v) (value_behind-append b':' label (b' ' ∷ []) v h)

number_at :
    (r : Regex) (label line v : Bytes) {m : Bytes}
    → regex_search r line ≡ some m
    → m ≡ (label ++ (b'=' ∷ [])) ++ v
    → lacks b'=' label ≡ true
    → number_of r line ≡ string_to_int v
unfolding number_of
number_at r label line v found e h =
    rw (found, e, append_assoc label (b'=' ∷ []) v, value_behind-append b'=' label [] v h)

pub field_of-FieldFound :
    (label line : Bytes) {m : Bytes}
    → lacks b':' label ≡ true
    → regex_search ((literal (label ++ colon) ++ (many dot ∷ [])) ∷ []) line ≡ some m
    → FieldFound label line m ((literal (label ++ colon) ++ (many dot ∷ [])) ∷ [])
field_of-FieldFound label line {m} h found =
    let (v, e, k) = literal-Matches (label ++ colon) (regex_search-Matches _ line found) in
    record {
      value = v;
      splits = e;
      on_line = many-Matches k;
      returned = field_at _ label line v found e h;
    }

abbrev pub equals : Bytes
equals = b'=' ∷ []

-- The line has a number behind `label=`.
pub record HasNumber (label : Bytes) (r : Regex) (line : Bytes) : Type 0 where
  pub first : ℕ
  pub rest : Bytes
  pub first_is_digit : in_class digit first ≡ true
  pub found : regex_search r line ≡ some ((label ++ equals) ++ (first ∷ rest))

abbrev pub int_of : Bytes → ℤ
int_of ds = pos (if ltb (digits_value 0 ds) (2 ^ 31) then digits_value 0 ds else 2 ^ 31 - 1)

pub number_of-HasNumber :
    (label : Bytes) (r : Regex) (line : Bytes)
    → lacks b'=' label ≡ true
    → (n : HasNumber label r line) → number_of r line ≡ done (int_of (n.first ∷ n.rest))
number_of-HasNumber label r line h n =
    number_at r label line (n.first ∷ n.rest) n.found refl h
    ∙ string_to_int-digits n.first n.rest n.first_is_digit

number_of_absent :
    (r : Regex) (line : Bytes) → regex_search r line ≡ none → number_of r line ≡ fault uninitialised
unfolding number_of value_behind index_of behind substr string_to_int
number_of_absent r line e = rw e

not_longer : (s t : Bytes) (x : ℕ) → s ++ [] ≡ s ++ (x ∷ t) → ⊥
not_longer s t x e = omega (arith, ap length e, length-append s [], length-append s (x ∷ t))

number_pattern-cases :
    (label line v m : Bytes) (r : Regex)
    → regex_search r line ≡ some m
    → m ≡ (label ++ equals) ++ v
    → All (λ x. in_class digit x ≡ true) v
    → lacks b'=' label ≡ true
    → HasNumber label r line ⊎ ((number_of r line ≡ fault uninitialised) × ¬ HasNumber label r line)
number_pattern-cases label line [] m r found e ds h = inr (
  number_at r label line [] found e h ∙ string_to_int-nil,
  λ n. not_longer (label ++ equals) n.rest n.first (cc (found, e, n.found)),
)
number_pattern-cases label line (d ∷ ds) m r found e t h =
    inl (record { first = d; rest = ds; first_is_digit = t.0; found = found ∙ ap some e })

-- Either a number is found, or the variable is read unwritten.
pub number_of-cases :
    (label line : Bytes)
    → lacks b'=' label ≡ true
    → let r = (literal (label ++ equals) ++ (many digit ∷ [])) ∷ [] in
      HasNumber label r line ⊎ ((number_of r line ≡ fault uninitialised) × ¬ HasNumber label r line)
number_of-cases label line h =
    elim (Option-cases
      (regex_search ((literal (label ++ equals) ++ (many digit ∷ [])) ∷ []) line)) [
        | inl e ↦ inr (number_of_absent _ line e, λ n. cc (e, n.found))
        | inr (m, e) ↦
            let (v, k, ds) = literal-Matches (label ++ equals) (regex_search-Matches _ line e) in
            number_pattern-cases label line v m _ e k (many-Matches ds) h
      ]
