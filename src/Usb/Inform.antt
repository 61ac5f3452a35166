-- ===== src/Usb/Inform.antt =====
-- checkIfInformationAboutDeviceFound as a whole.
use storing_devices_logs_tfm.Base.{
  false, Bool, ◌≡◌, refl, sym, subst, arith, some, none, Option, Bytes, done, Ends, Ends-bind,
  Ends-done, ◌>>=◌, inl, inr, Option-cases,
}
use storing_devices_logs_tfm.Regex.{regex_search}
use storing_devices_logs_tfm.StdMap.{find, IsSorted}
use storing_devices_logs_tfm.StdMap.Replace.{replace-set}
use storing_devices_logs_tfm.Usb.{UsbInterface, Interfaces}
use storing_devices_logs_tfm.Usb.Text.{usb_regex}
use storing_devices_logs_tfm.Usb.Checks.{
  check_if_information_about_device_found, updated_by, store_update, interface_of,
}
use storing_devices_logs_tfm.Usb.Safety.{Touches, Touches-refl, set-Touches}
use storing_devices_logs_tfm.Usb.Information.{IsReadable, Anything, updated_by-Ends}

module _ (line : Bytes) (m : Interfaces) where
  pub information_absent :
      regex_search usb_regex line ≡ none
      → check_if_information_about_device_found line m ≡ done (false, m)
  unfolding check_if_information_about_device_found
  information_absent h = ground arith

  pub information_unknown :
      find (interface_of line) m ≡ none
      → check_if_information_about_device_found line m ≡ done (false, m)
  unfolding check_if_information_about_device_found
  information_unknown n = ground arith

  pub information_known :
      (found : Bytes) (e : UsbInterface)
      → regex_search usb_regex line ≡ some found
      → find (interface_of line) m ≡ some e
      → check_if_information_about_device_found line m ≡ (
          updated_by line e >>= λ u.
          store_update (interface_of line) u m >>= λ updated. done (false, updated))
  unfolding check_if_information_about_device_found
  information_known found e h n = ground arith

  abbrev pub Informed : Bool × Interfaces → Type 0
  Informed r = (r.0 ≡ false) × Touches (interface_of line) m r.1

  store-Ends :
      (Q : Type 0) (e : UsbInterface) (o : Option UsbInterface)
      → IsSorted m
      → find (interface_of line) m ≡ some e
      → Ends Informed Q (store_update (interface_of line) o m >>= λ updated. done (false, updated))
  unfolding store_update
  store-Ends Q e none s n = (refl, Touches-refl _ m s)
  store-Ends Q e (some e') s n =
      rw (replace-set (interface_of line) e' e m s n) (refl, set-Touches _ e' e m s n)

  pub information-Ends :
      IsSorted m
      → Ends Informed (¬ IsReadable line) (check_if_information_about_device_found line m)
  information-Ends s = elim (Option-cases (regex_search usb_regex line)) [
    | inl h ↦ Ends-done Informed _ (information_absent h) (refl, Touches-refl _ m s)
    | inr (found, h) ↦ elim (Option-cases (find (interface_of line) m)) [
      | inl n ↦ Ends-done Informed _ (information_unknown n) (refl, Touches-refl _ m s)
      | inr (e, n) ↦
          subst (Ends Informed (¬ IsReadable line)) (sym (information_known found e h n)) (
            Ends-bind Anything Informed _ (updated_by line e) _ (updated_by-Ends line e)
              (λ o _. store-Ends _ e o s n))
    ]
  ]
