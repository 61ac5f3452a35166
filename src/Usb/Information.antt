-- ===== src/Usb/Information.antt =====
-- checkIfInformationAboutDeviceFound: which field a line sets, and when it reads an unwritten number.
use storing_devices_logs_tfm.Base.{
  true, ◌≡◌, ◌⊎◌, refl, arith, ◌∷◌, some, none, Option, Bytes, text, done, fault, uninitialised,
  Ends, Ends-done, inl, inr, Option-cases,
}
use storing_devices_logs_tfm.Regex.{regex_search, is_found}
use storing_devices_logs_tfm.Usb.{UsbInterface}
use storing_devices_logs_tfm.Usb.Text.{
  id_vendor_and_id_product_regex, id_vendor_regex, id_product_regex, serial_number_regex,
  product_name_regex, manufacturer_regex,
}
use storing_devices_logs_tfm.Usb.Fields.{
  HasNumber, FieldFound, field_of-FieldFound, number_of-cases, number_of-HasNumber, int_of,
}
use storing_devices_logs_tfm.Usb.Checks.{updated_by, number_of}

-- A line that announces a device has both of its numbers.
abbrev pub IsReadable : Bytes → Type 0
IsReadable line =
    is_found (regex_search id_vendor_and_id_product_regex line) ≡ true
    → HasNumber (text "idVendor") id_vendor_regex line
      × HasNumber (text "idProduct") id_product_regex line

pub vendor_cases :
    (line : Bytes)
    → HasNumber (text "idVendor") id_vendor_regex line
      ⊎ ((number_of id_vendor_regex line ≡ fault uninitialised)
          × ¬ HasNumber (text "idVendor") id_vendor_regex line)
unfolding text
vendor_cases line = number_of-cases (text "idVendor") line refl

pub product_cases :
    (line : Bytes)
    → HasNumber (text "idProduct") id_product_regex line
      ⊎ ((number_of id_product_regex line ≡ fault uninitialised)
          × ¬ HasNumber (text "idProduct") id_product_regex line)
unfolding text
product_cases line = number_of-cases (text "idProduct") line refl

pub serial_found :
    (line : Bytes) {m : Bytes}
    → regex_search serial_number_regex line ≡ some m
    → FieldFound (text "SerialNumber") line m serial_number_regex
unfolding text
serial_found line e = field_of-FieldFound (text "SerialNumber") line refl e

pub product_found :
    (line : Bytes) {m : Bytes}
    → regex_search product_name_regex line ≡ some m
    → FieldFound (text "Product") line m product_name_regex
unfolding text
product_found line e = field_of-FieldFound (text "Product") line refl e

pub manufacturer_found :
    (line : Bytes) {m : Bytes}
    → regex_search manufacturer_regex line ≡ some m
    → FieldFound (text "Manufacturer") line m manufacturer_regex
unfolding text
manufacturer_found line e = field_of-FieldFound (text "Manufacturer") line refl e

-- The number that a line with one gives.
pub vendor_of :
    (line : Bytes) (n : HasNumber (text "idVendor") id_vendor_regex line)
    → number_of id_vendor_regex line ≡ done (int_of (n.first ∷ n.rest))
unfolding text
vendor_of line n = number_of-HasNumber (text "idVendor") id_vendor_regex line refl n

pub product_of :
    (line : Bytes) (n : HasNumber (text "idProduct") id_product_regex line)
    → number_of id_product_regex line ≡ done (int_of (n.first ∷ n.rest))
unfolding text
product_of line n = number_of-HasNumber (text "idProduct") id_product_regex line refl n

abbrev pub Anything : Option UsbInterface → Type 0
Anything o = Unit

module _ (line : Bytes) (e : UsbInterface) where
  update_numbers :
      is_found (regex_search id_vendor_and_id_product_regex line) ≡ true
      → Ends Anything (¬ IsReadable line) (updated_by line e)
  unfolding updated_by
  update_numbers h = elim (vendor_cases line) [
    | inr (v, nv) ↦ rw (h, v) (λ r. nv (r refl).0)
    | inl v ↦ elim (product_cases line) [
      | inr (p, np) ↦ rw (h, vendor_of line v, p) (λ r. np (r refl).1)
      | inl p ↦ rw (h, vendor_of line v, product_of line p) tt
    ]
  ]

  pub updated-numbers :
      is_found (regex_search id_vendor_and_id_product_regex line) ≡ true
      → (v : HasNumber (text "idVendor") id_vendor_regex line)
      → (p : HasNumber (text "idProduct") id_product_regex line)
      → updated_by line e
        ≡ done (
            some (record e {
              id_vendor = int_of (v.first ∷ v.rest);
              id_product = int_of (p.first ∷ p.rest);
            }))
  unfolding updated_by
  updated-numbers h v p = rw (h, vendor_of line v, product_of line p)

  -- The other expressions are tried in this order, each where those before it are not found.
  module _ (unannounced : regex_search id_vendor_and_id_product_regex line ≡ none) where
    pub updated-serial :
        {m : Bytes} (found : regex_search serial_number_regex line ≡ some m)
        → updated_by line e
          ≡ done (some (record e { serial_number = (serial_found line found).value }))
    unfolding updated_by
    updated-serial found = ground (arith, (serial_found line found).returned)

    module _ (no_serial : regex_search serial_number_regex line ≡ none) where
      pub updated-product :
          {m : Bytes} (found : regex_search product_name_regex line ≡ some m)
          → updated_by line e
            ≡ done (some (record e { product_name = (product_found line found).value }))
      unfolding updated_by
      updated-product found = ground (arith, (product_found line found).returned)

      module _ (no_product : regex_search product_name_regex line ≡ none) where
        pub updated-manufacturer :
            {m : Bytes} (found : regex_search manufacturer_regex line ≡ some m)
            → updated_by line e
              ≡ done (some (record e { manufacturer = (manufacturer_found line found).value }))
        unfolding updated_by
        updated-manufacturer found = ground (arith, (manufacturer_found line found).returned)

        pub updated-nothing :
            regex_search manufacturer_regex line ≡ none → updated_by line e ≡ done none
        unfolding updated_by
        updated-nothing found = ground arith

  update_labels :
      regex_search id_vendor_and_id_product_regex line ≡ none
      → (o : Option UsbInterface) × (updated_by line e ≡ done o)
  update_labels un = elim (Option-cases (regex_search serial_number_regex line)) [
    | inr (m, f) ↦ (_, updated-serial un f)
    | inl s ↦ elim (Option-cases (regex_search product_name_regex line)) [
      | inr (m, f) ↦ (_, updated-product un s f)
      | inl p ↦ elim (Option-cases (regex_search manufacturer_regex line)) [
        | inr (m, f) ↦ (_, updated-manufacturer un s p f)
        | inl n ↦ (_, updated-nothing un s p n)
      ]
    ]
  ]

  pub updated_by-Ends : Ends Anything (¬ IsReadable line) (updated_by line e)
  updated_by-Ends = elim (Option-cases (regex_search id_vendor_and_id_product_regex line)) [
    | inr (m, f) ↦ update_numbers (rw f)
    | inl un ↦ let (o, d) = update_labels un in Ends-done Anything _ d tt
  ]
