-- ===== src/Usb/Log/Save.antt =====
-- saveInterfacesInfoInUSBsMap. The body of its loop erases the element that the loop's iterator
-- points to and inserts one under the same key; `++it` then advances an iterator to an erased
-- element. What that does depends on the allocator.
pub mod Reference
pub mod Loop
use storing_devices_logs_tfm.Base.{
  Bool, true, false, [], ◌∷◌, ◌++◌, if◌then◌else◌, is_zero, equal, Bytes, Outcome, done, fault,
  invalid_iterator, ◌>>=◌,
}
use storing_devices_logs_tfm.StdMap.{find, insert, replace, contains}
use storing_devices_logs_tfm.Usb.{
  UsbInterface, UsbInfo, initialize_usb_interface, usb_info, Interfaces, Usbs,
}
use storing_devices_logs_tfm.Usb.Checks.{element}

-- `reusing`: the node freed by `erase` is the one that the next `insert` is given, so the address
-- in the iterator is that of the new element. `other`: it is not, and the behaviour is undefined.
pub data Allocator : Type 0 where
  reusing other : Allocator

unfoldable pub advance : Allocator → Outcome (Unit {0})
advance reusing = done tt
advance other = fault invalid_iterator

abbrev is_text_empty : Bytes → Bool
is_text_empty s = equal s []

-- A device that is in the map: one more connection, and what was not known before.
unfoldable pub completed : UsbInterface → UsbInfo → UsbInfo
completed e u = record {
  connection_times = u.connection_times ++ e.connection_time ∷ [];
  disconnection_times = u.disconnection_times;
  id_vendor = if is_zero u.id_vendor then e.id_vendor else u.id_vendor;
  id_product = if is_zero u.id_product then e.id_product else u.id_product;
  product_name = if is_text_empty u.product_name then e.product_name else u.product_name;
  manufacturer = if is_text_empty u.manufacturer then e.manufacturer else u.manufacturer;
  serial_number = if is_text_empty u.serial_number then e.serial_number else u.serial_number;
}

-- A storage device that is not.
unfoldable pub fresh : UsbInterface → UsbInfo
fresh e = record usb_info {
  connection_times = usb_info.connection_times ++ e.connection_time ∷ [];
  id_vendor = e.id_vendor;
  id_product = e.id_product;
  product_name = e.product_name;
  manufacturer = e.manufacturer;
  serial_number = e.serial_number;
}

complete_known : UsbInterface → Usbs → Outcome Usbs
unfolding completed
complete_known e usbs = do
  u ← element e.serial_number usbs
  replace e.serial_number (completed e u) usbs

-- The part of the body that writes to the map of devices.
unfoldable pub save_interface : UsbInterface → Usbs → Outcome Usbs
unfolding complete_known fresh
save_interface e usbs =
    if contains e.serial_number usbs
    then complete_known e usbs
    else done (if e.is_storage_device then insert e.serial_number (fresh e) usbs else usbs)

-- The loop over the elements from `it` on. A later element is not written before its turn.
save_from : Allocator → Interfaces → Interfaces → Usbs → Outcome (Interfaces × Usbs)
unfolding save_interface advance
save_from a [] interfaces usbs = done (interfaces, usbs)
save_from a ((k, e) ∷ rest) interfaces usbs =
    let skipped = save_from a rest interfaces usbs in
    let saved = do
      usbs ← save_interface e usbs
      interfaces ← replace k (initialize_usb_interface e) interfaces
      next ← advance a
      save_from a rest interfaces usbs
    in if e.is_empty then skipped else saved

unfoldable pub save_interfaces_info_in_usbs_map :
    Allocator → Interfaces → Usbs → Outcome (Interfaces × Usbs)
unfolding save_from
save_interfaces_info_in_usbs_map a interfaces usbs = save_from a interfaces interfaces usbs
