-- ===== src/Usb/Storage.antt =====
-- checkIfStorageDevice and checkIfNewDeviceConnected, branch by branch.
use storing_devices_logs_tfm.Base.{true, false, ◌≡◌, arith, some, none, Bytes, done}
use storing_devices_logs_tfm.Regex.{regex_search}
use storing_devices_logs_tfm.StdMap.{find, insert, IsSorted}
use storing_devices_logs_tfm.StdMap.Replace.{set, replace-set}
use storing_devices_logs_tfm.Usb.{UsbInterface, Interfaces, initialized}
use storing_devices_logs_tfm.Usb.Text.{storage_regex, new_usb_regex, get_interface_id_from_regex}
use storing_devices_logs_tfm.Usb.Checks.{
  check_if_storage_device, check_if_new_device_connected, date_of,
}

abbrev pub stored : UsbInterface → UsbInterface
stored e = record e { is_storage_device = true }

abbrev pub connected : Bytes → UsbInterface → UsbInterface
connected line e = record e { is_empty = false; connection_time = date_of line }

module _ (line : Bytes) (m : Interfaces) where
  pub storage_absent :
      regex_search storage_regex line ≡ none → check_if_storage_device line m ≡ done (false, m)
  unfolding check_if_storage_device
  storage_absent h = rw (h, check_if_storage_device)

  pub storage_unknown :
      (found : Bytes)
      → regex_search storage_regex line ≡ some found
      → find (get_interface_id_from_regex found) m ≡ none
      → check_if_storage_device line m ≡ done (true, m)
  unfolding check_if_storage_device
  storage_unknown found h n = ground arith

  pub storage_known :
      (found : Bytes) (e : UsbInterface)
      → IsSorted m
      → regex_search storage_regex line ≡ some found
      → find (get_interface_id_from_regex found) m ≡ some e
      → check_if_storage_device line m
        ≡ done (true, set (get_interface_id_from_regex found) (stored e) m)
  unfolding check_if_storage_device
  storage_known found e s h n =
      ground (arith, replace-set (get_interface_id_from_regex found) (stored e) e m s n)

  pub connection_absent :
      regex_search new_usb_regex line ≡ none
      → check_if_new_device_connected line m ≡ done (false, m)
  unfolding check_if_new_device_connected
  connection_absent h = rw (h, check_if_new_device_connected)

  pub connection_first :
      (found : Bytes)
      → regex_search new_usb_regex line ≡ some found
      → find (get_interface_id_from_regex found) m ≡ none
      → check_if_new_device_connected line m
        ≡ done (true, insert (get_interface_id_from_regex found) (connected line initialized) m)
  unfolding check_if_new_device_connected
  connection_first found h n = ground arith

  pub connection_again :
      (found : Bytes) (e : UsbInterface)
      → IsSorted m
      → regex_search new_usb_regex line ≡ some found
      → find (get_interface_id_from_regex found) m ≡ some e
      → e.is_empty ≡ true
      → check_if_new_device_connected line m
        ≡ done (true, set (get_interface_id_from_regex found) (connected line e) m)
  unfolding check_if_new_device_connected
  connection_again found e s h n t =
      ground (arith, replace-set (get_interface_id_from_regex found) (connected line e) e m s n)

  pub connection_busy :
      (found : Bytes) (e : UsbInterface)
      → regex_search new_usb_regex line ≡ some found
      → find (get_interface_id_from_regex found) m ≡ some e
      → e.is_empty ≡ false
      → check_if_new_device_connected line m ≡ done (false, m)
  unfolding check_if_new_device_connected
  connection_busy found e h n t = ground arith
