-- ===== src/Usb/Log/Lines.antt =====
-- The lines that the kernel writes for a device, by what the expressions find in them, and what
-- processing such a line does.
use storing_devices_logs_tfm.Base.{
  text, ◌++◌, ◌∷◌, [], sym, true, false, ◌≡◌, ap, ◌∙◌, arith, some, none, Bytes, done, inl, inr,
  Option-cases,
}
use storing_devices_logs_tfm.Regex.{regex_search}
use storing_devices_logs_tfm.StdMap.{find, insert, IsSorted}
use storing_devices_logs_tfm.StdMap.Replace.{set, replace-set}
use storing_devices_logs_tfm.Usb.{UsbInterface, Interfaces, initialized}
use storing_devices_logs_tfm.Usb.Text.{
  storage_regex, usb_regex, new_usb_regex, disconnection_found_regex,
  id_vendor_and_id_product_regex, serial_number_regex, product_name_regex, manufacturer_regex,
  get_interface_id_from_regex,
}
use storing_devices_logs_tfm.Usb.Checks.{
  check_if_information_about_device_found, interface_of, store_update,
}
use storing_devices_logs_tfm.Usb.Storage.{
  stored, connected, storage_absent, storage_known, connection_absent, connection_first,
  connection_again, connection_busy,
}
use storing_devices_logs_tfm.Usb.Information.{updated-nothing, updated-serial, serial_found}
use storing_devices_logs_tfm.Usb.Inform.{information_unknown, information_known}
use storing_devices_logs_tfm.Usb.Disconnection.{disconnection_absent}
use storing_devices_logs_tfm.Usb.Log.{State, process_line}

-- A line about the interface `id` that is not about storage.
pub record IsAbout (id line : Bytes) : Type 0 where
  pub no_storage : regex_search storage_regex line ≡ none
  pub usb_found : Bytes
  pub usb_searched : regex_search usb_regex line ≡ some usb_found
  pub usb_named : get_interface_id_from_regex usb_found ≡ id

-- It gives no field of the device.
pub record IsPlain (line : Bytes) : Type 0 where
  pub unannounced : regex_search id_vendor_and_id_product_regex line ≡ none
  pub no_serial : regex_search serial_number_regex line ≡ none
  pub no_product : regex_search product_name_regex line ≡ none
  pub no_manufacturer : regex_search manufacturer_regex line ≡ none

-- `usb 1-1: new …`
pub record IsConnection (id line : Bytes) : Type 0 where
  pub about : IsAbout id line
  pub plain : IsPlain line
  pub new_found : Bytes
  pub new_searched : regex_search new_usb_regex line ≡ some new_found
  pub new_named : get_interface_id_from_regex new_found ≡ id
  pub no_disconnection : regex_search disconnection_found_regex line ≡ none

-- `usb 1-1: USB disconnect …`
pub record IsDisconnection (id line : Bytes) : Type 0 where
  pub about : IsAbout id line
  pub plain : IsPlain line
  pub not_new : regex_search new_usb_regex line ≡ none
  pub gone : Bytes
  pub gone_searched : regex_search disconnection_found_regex line ≡ some gone

pub interface_of-IsAbout : {id : Bytes} (line : Bytes) → IsAbout id line → interface_of line ≡ id
interface_of-IsAbout line a = ground (arith, a.usb_searched, a.usb_named)

pub information_plain :
    {id : Bytes} (line : Bytes) (m : Interfaces)
    → IsAbout id line
    → IsPlain line
    → check_if_information_about_device_found line m ≡ done (false, m)
unfolding store_update
information_plain line m a p = elim (Option-cases (find (interface_of line) m)) [
  | inl n ↦ information_unknown line m n
  | inr (e, n) ↦
      information_known line m a.usb_found e a.usb_searched n
      ∙ rw (updated-nothing line e p.unannounced p.no_serial p.no_product p.no_manufacturer)
]

-- A connection on an interface that is not in the map enters it.
pub process_connection_first :
    (id line : Bytes) (s : State)
    → IsConnection id line
    → find id s.interfaces ≡ none
    → process_line line s
      ≡ done (record s { interfaces = insert id (connected line initialized) s.interfaces })
unfolding process_line
process_connection_first id line s c n = ground (
  arith,
  storage_absent line s.interfaces c.about.no_storage,
  c.about.usb_searched,
  information_plain line s.interfaces c.about c.plain,
  connection_first line s.interfaces c.new_found c.new_searched,
  c.new_named,
)

-- `usb-storage 1-1: …`
pub record IsStorage (id line : Bytes) : Type 0 where
  pub storage_match : Bytes
  pub storage_searched : regex_search storage_regex line ≡ some storage_match
  pub storage_named : get_interface_id_from_regex storage_match ≡ id

-- A storage line marks the interface, whatever else it says.
pub process_storage :
    (id line : Bytes) (s : State) (e : UsbInterface)
    → IsStorage id line
    → IsSorted s.interfaces
    → find id s.interfaces ≡ some e
    → process_line line s ≡ done (record s { interfaces = set id (stored e) s.interfaces })
unfolding process_line
process_storage id line s e c sorted n = ground (
  arith,
  c.storage_named,
  storage_known line s.interfaces c.storage_match e sorted c.storage_searched,
)

-- `usb 1-1: SerialNumber: …`
pub record IsSerial (id line : Bytes) : Type 0 where
  pub about : IsAbout id line
  pub unannounced : regex_search id_vendor_and_id_product_regex line ≡ none
  pub serial : Bytes
  pub serial_searched :
      regex_search serial_number_regex line ≡ some (text "SerialNumber: " ++ serial)
  pub not_new : regex_search new_usb_regex line ≡ none
  pub no_disconnection : regex_search disconnection_found_regex line ≡ none

-- The serial number that such a line gives.
abbrev pub serial_of : {id line : Bytes} → IsSerial id line → Bytes
serial_of c = c.serial

append_cancel : (p s t : Bytes) → p ++ s ≡ p ++ t → s ≡ t
append_cancel [] s t e = e
append_cancel (x ∷ p) s t e = append_cancel p s t (cc (e))

serial_value :
    (line serial : Bytes)
    → (h : regex_search serial_number_regex line ≡ some (text "SerialNumber: " ++ serial))
    → (serial_found line h).value ≡ serial
unfolding text
serial_value line serial h =
    let f = serial_found line h in
    sym (append_cancel (text "SerialNumber: ") serial f.value f.splits)

information_serial :
    (id line : Bytes) (m : Interfaces) (e : UsbInterface)
    → (c : IsSerial id line) → IsSorted m
    → find id m ≡ some e
    → check_if_information_about_device_found line m
      ≡ done (false, set id (record e { serial_number = serial_of c }) m)
unfolding store_update
information_serial id line m e c sorted n =
    let i = interface_of-IsAbout line c.about in
    let known = ap (λ k. find k m) i ∙ n in
    information_known line m c.about.usb_found e c.about.usb_searched known
    ∙ rw (
      updated-serial line e c.unannounced c.serial_searched,
      serial_value line c.serial c.serial_searched,
      i,
      replace-set id (record e { serial_number = serial_of c }) e m sorted n,
    )

-- A line with a serial number writes it to its interface.
pub process_serial :
    (id line : Bytes) (s : State) (e : UsbInterface)
    → (c : IsSerial id line) → IsSorted s.interfaces
    → find id s.interfaces ≡ some e
    → process_line line s
      ≡ done
          (record s { interfaces = set id (record e { serial_number = serial_of c }) s.interfaces })
unfolding process_line
process_serial id line s e c sorted n =
    let m = set id (record e { serial_number = serial_of c }) s.interfaces in
    ground (
      arith,
      storage_absent line s.interfaces c.about.no_storage,
      c.about.usb_searched,
      information_serial id line s.interfaces e c sorted n,
      connection_absent line m c.not_new,
      disconnection_absent line m s.usbs c.no_disconnection,
    )

-- A connection on a port whose device is gone takes the port again, with the fields that a late
-- line may have left there.
pub process_connection_again :
    (id line : Bytes) (s : State) (e : UsbInterface)
    → IsConnection id line
    → IsSorted s.interfaces
    → find id s.interfaces ≡ some e
    → e.is_empty ≡ true
    → process_line line s ≡ done (record s { interfaces = set id (connected line e) s.interfaces })
unfolding process_line
process_connection_again id line s e c sorted n t = ground (
  arith,
  storage_absent line s.interfaces c.about.no_storage,
  c.about.usb_searched,
  information_plain line s.interfaces c.about c.plain,
  connection_again line s.interfaces c.new_found e sorted c.new_searched,
  c.new_named,
)

-- A connection on a port that still holds a device changes nothing.
pub process_connection_busy :
    (id line : Bytes) (s : State) (e : UsbInterface)
    → IsConnection id line
    → find id s.interfaces ≡ some e
    → e.is_empty ≡ false
    → process_line line s ≡ done s
unfolding process_line
process_connection_busy id line s e c n t = ground (
  arith,
  storage_absent line s.interfaces c.about.no_storage,
  c.about.usb_searched,
  information_plain line s.interfaces c.about c.plain,
  connection_busy line s.interfaces c.new_found e c.new_searched,
  c.new_named,
  disconnection_absent line s.interfaces s.usbs c.no_disconnection,
)
