-- ===== src/Usb/Disconnection.antt =====
-- checkIfDeviceDisconnected, branch by branch.
use storing_devices_logs_tfm.Base.{true, false, ◌≡◌, arith, [], ◌∷◌, ◌++◌, some, none, Bytes, done}
use storing_devices_logs_tfm.Regex.{regex_search}
use storing_devices_logs_tfm.StdMap.{find, insert, IsSorted}
use storing_devices_logs_tfm.StdMap.Replace.{set, replace-set}
use storing_devices_logs_tfm.Usb.{UsbInterface, UsbInfo, Interfaces, Usbs, initialized}
use storing_devices_logs_tfm.Usb.Text.{disconnection_found_regex}
use storing_devices_logs_tfm.Usb.Checks.{check_if_device_disconnected, interface_of, date_of}

-- A recorded device with one more session.
abbrev pub with_session : Bytes → UsbInterface → UsbInfo → UsbInfo
with_session time e u = record u {
  connection_times = u.connection_times ++ e.connection_time ∷ [];
  disconnection_times = u.disconnection_times ++ time ∷ [];
}

-- A device with its first session.
abbrev pub first_session : Bytes → UsbInterface → UsbInfo
first_session time e = record {
  connection_times = e.connection_time ∷ [];
  disconnection_times = time ∷ [];
  id_vendor = e.id_vendor;
  id_product = e.id_product;
  product_name = e.product_name;
  manufacturer = e.manufacturer;
  serial_number = e.serial_number;
}

module _ (line : Bytes) (m : Interfaces) (usbs : Usbs) where
  pub disconnection_absent :
      regex_search disconnection_found_regex line ≡ none
      → check_if_device_disconnected line m usbs ≡ done (false, m, usbs)
  unfolding check_if_device_disconnected
  disconnection_absent h = ground arith

  module _ {found : Bytes} (h : regex_search disconnection_found_regex line ≡ some found) where
    pub disconnection_unknown :
        find (interface_of line) m ≡ none
        → check_if_device_disconnected line m usbs ≡ done (true, m, usbs)
    unfolding check_if_device_disconnected
    disconnection_unknown n = ground arith

    module _ (e : UsbInterface) (n : find (interface_of line) m ≡ some e) where
      pub disconnection_empty :
          e.is_empty ≡ true → check_if_device_disconnected line m usbs ≡ done (true, m, usbs)
      unfolding check_if_device_disconnected
      disconnection_empty t = ground arith

      pub disconnection_other :
          e.is_storage_device ≡ false
          → check_if_device_disconnected line m usbs ≡ done (true, m, usbs)
      unfolding check_if_device_disconnected
      disconnection_other t = ground arith

      module _ (sorted : IsSorted m) (used : e.is_empty ≡ false)
          (stores : e.is_storage_device ≡ true) where
        pub disconnection_first :
            find e.serial_number usbs ≡ none
            → check_if_device_disconnected line m usbs
              ≡ done (
                true,
                set (interface_of line) initialized m,
                insert e.serial_number (first_session (date_of line) e) usbs,
              )
        unfolding check_if_device_disconnected
        disconnection_first k =
            ground (arith, replace-set (interface_of line) initialized e m sorted n)

        pub disconnection_again :
            (u : UsbInfo)
            → IsSorted usbs
            → find e.serial_number usbs ≡ some u
            → check_if_device_disconnected line m usbs
              ≡ done (
                true,
                set (interface_of line) initialized m,
                set e.serial_number (with_session (date_of line) e u) usbs,
              )
        unfolding check_if_device_disconnected
        disconnection_again u s k = ground (
          arith,
          replace-set (interface_of line) initialized e m sorted n,
          replace-set e.serial_number (with_session (date_of line) e u) u usbs s k,
        )
