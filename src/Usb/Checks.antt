-- ===== src/Usb/Checks.antt =====
-- The four checks that getUSBsInfo makes of a line. A check returns its Boolean with the maps.
use storing_devices_logs_tfm.Base.{
  Bool, true, false, not, ◌&&◌, ℤ, List, [], ◌∷◌, ◌++◌, Option, none, some, if◌then◌else◌, Bytes,
  Outcome, done, ◌>>=◌, or_fault, invalid_iterator,
}
use storing_devices_logs_tfm.Regex.{Atom, regex_search, str, is_found}
use storing_devices_logs_tfm.StdMap.{find, insert, replace, contains}
use storing_devices_logs_tfm.Usb.{
  UsbInterface, UsbInfo, initialized, initialize_usb_interface, usb_info, Interfaces, Usbs,
}
use storing_devices_logs_tfm.Usb.Text.{
  storage_regex, usb_regex, new_usb_regex, date_regex, disconnection_found_regex,
  id_vendor_and_id_product_regex, id_vendor_regex, id_product_regex, serial_number_regex,
  product_name_regex, manufacturer_regex, get_interface_id_from_regex, value_behind, string_to_int,
}

-- `it = map.find(key); it->second`.
abbrev pub element {ℓ} : {V : Type ℓ} → Bytes → List (Bytes × V) → Outcome V
element k m = or_fault (find k m) invalid_iterator

set_storage : Bytes → Interfaces → Outcome (Bool × Interfaces)
set_storage interface_id interfaces = do
  e ← element interface_id interfaces
  updated ← replace interface_id (record e { is_storage_device = true }) interfaces
  done (true, updated)

unfoldable pub check_if_storage_device : Bytes → Interfaces → Outcome (Bool × Interfaces)
unfolding set_storage
check_if_storage_device line interfaces = elim (regex_search storage_regex line) [
  | none ↦ done (false, interfaces)
  | some found ↦
      let interface_id = get_interface_id_from_regex found in
      if contains interface_id interfaces
      then set_storage interface_id interfaces
      else done (true, interfaces)
]

-- The time that a line shows, empty if the search for it fails.
abbrev pub date_of : Bytes → Bytes
date_of line = str (regex_search date_regex line)

-- An interface that is in the map: only an empty one takes the new connection.
connect_again : Bytes → Bytes → Interfaces → Outcome (Bool × Interfaces)
connect_again line interface_id interfaces = do
  e ← element interface_id interfaces
  let connected = record e { is_empty = false; connection_time = date_of line }
  let replaced = replace interface_id connected interfaces
  if e.is_empty then (replaced >>= λ updated. done (true, updated)) else done (false, interfaces)

connect_first : Bytes → Bytes → Interfaces → Outcome (Bool × Interfaces)
connect_first line interface_id interfaces =
    let e = record initialized { is_empty = false; connection_time = date_of line } in
    done (true, insert interface_id e interfaces)

unfoldable pub check_if_new_device_connected : Bytes → Interfaces → Outcome (Bool × Interfaces)
unfolding connect_again connect_first
check_if_new_device_connected line interfaces = elim (regex_search new_usb_regex line) [
  | none ↦ done (false, interfaces)
  | some found ↦
      let interface_id = get_interface_id_from_regex found in
      if contains interface_id interfaces
      then connect_again line interface_id interfaces
      else connect_first line interface_id interfaces
]

-- A device that is in the map gets one more pair of times.
add_times : UsbInterface → Bytes → Usbs → Outcome Usbs
add_times e time usbs = do
  u ← element e.serial_number usbs
  let known = record u {
    connection_times = u.connection_times ++ e.connection_time ∷ [];
    disconnection_times = u.disconnection_times ++ time ∷ [];
  }
  replace e.serial_number known usbs

-- A device that is not.
add_device : UsbInterface → Bytes → Usbs → Usbs
add_device e time usbs = insert e.serial_number found usbs
  where
    found : UsbInfo
    found = record {
      connection_times = usb_info.connection_times ++ e.connection_time ∷ [];
      disconnection_times = usb_info.disconnection_times ++ time ∷ [];
      id_vendor = e.id_vendor;
      id_product = e.id_product;
      product_name = e.product_name;
      manufacturer = e.manufacturer;
      serial_number = e.serial_number;
    }

-- The interface's device is entered, and the interface is emptied.
disconnect : Bytes → UsbInterface → Bytes → Interfaces → Usbs → Outcome (Bool × Interfaces × Usbs)
unfolding add_times add_device
disconnect interface_id e time interfaces usbs = do
  usbs ←
      if contains e.serial_number usbs then add_times e time usbs else done (add_device e time usbs)
  updated ← replace interface_id (initialize_usb_interface e) interfaces
  done (true, updated, usbs)

disconnect_known : Bytes → Bytes → Interfaces → Usbs → Outcome (Bool × Interfaces × Usbs)
unfolding disconnect
disconnect_known line interface_id interfaces usbs = do
  e ← element interface_id interfaces
  if not e.is_empty && e.is_storage_device
      then disconnect interface_id e (date_of line) interfaces usbs
      else done (true, interfaces, usbs)

-- The interface that an expression finds in a line, empty if it finds none.
abbrev pub id_in : List (List Atom) → Bytes → Bytes
id_in r line = elim (regex_search r line) [
  | none ↦ []
  | some found ↦ get_interface_id_from_regex found
]

abbrev pub interface_of : Bytes → Bytes
interface_of = id_in usb_regex

unfoldable pub check_if_device_disconnected :
    Bytes → Interfaces → Usbs → Outcome (Bool × Interfaces × Usbs)
unfolding disconnect_known
check_if_device_disconnected line interfaces usbs =
    if is_found (regex_search disconnection_found_regex line)
    then if contains (interface_of line) interfaces
      then disconnect_known line (interface_of line) interfaces usbs
      else done (true, interfaces, usbs)
    else done (false, interfaces, usbs)

-- `idVendor` and `idProduct` of the line: the decimal number behind `=`.
unfoldable pub number_of : List (List Atom) → Bytes → Outcome ℤ
number_of r line = do digits ← value_behind b'=' 1 (str (regex_search r line)); string_to_int digits

-- The field behind `: `.
unfoldable pub field_of : List (List Atom) → Bytes → Outcome Bytes
field_of r line = value_behind b':' 2 (str (regex_search r line))

-- The element with what the line says of the device, by the first expression that is found.
unfoldable pub updated_by : Bytes → UsbInterface → Outcome (Option UsbInterface)
updated_by line e =
    if is_found (regex_search id_vendor_and_id_product_regex line)
    then (number_of id_vendor_regex line >>= λ v. number_of id_product_regex line >>= λ p.
        done (some (record e { id_vendor = v; id_product = p })))
    else if is_found (regex_search serial_number_regex line)
    then (field_of serial_number_regex line >>= λ s. done (some (record e { serial_number = s })))
    else if is_found (regex_search product_name_regex line)
    then (field_of product_name_regex line >>= λ s. done (some (record e { product_name = s })))
    else if is_found (regex_search manufacturer_regex line)
    then (field_of manufacturer_regex line >>= λ s. done (some (record e { manufacturer = s })))
    else done none

unfoldable pub store_update : Bytes → Option UsbInterface → Interfaces → Outcome Interfaces
store_update interface_id none interfaces = done interfaces
store_update interface_id (some e) interfaces = replace interface_id e interfaces

update_known : Bytes → Bytes → Interfaces → Outcome Interfaces
unfolding store_update
update_known line interface_id interfaces = do
  e ← element interface_id interfaces
  update ← updated_by line e
  store_update interface_id update interfaces

-- The Boolean is false on every path.
unfoldable pub check_if_information_about_device_found :
    Bytes → Interfaces → Outcome (Bool × Interfaces)
unfolding update_known
check_if_information_about_device_found line interfaces = elim (regex_search usb_regex line) [
  | none ↦ done (false, interfaces)
  | some found ↦
      let interface_id = get_interface_id_from_regex found in
      if contains interface_id interfaces
      then (update_known line interface_id interfaces >>= λ updated. done (false, updated))
      else done (false, interfaces)
]
