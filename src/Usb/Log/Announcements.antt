-- ===== src/Usb/Log/Announcements.antt =====
-- The line that announces a device with its numbers: `usb 1-1: New USB device found, idVendor=…`.
use storing_devices_logs_tfm.Base.{
  true, false, ◌≡◌, ap, ◌∙◌, arith, some, none, Bytes, text, done, ◌∷◌,
}
use storing_devices_logs_tfm.Regex.{regex_search, is_found}
use storing_devices_logs_tfm.StdMap.{find, IsSorted}
use storing_devices_logs_tfm.StdMap.Replace.{set, replace-set}
use storing_devices_logs_tfm.Usb.{UsbInterface, Interfaces}
use storing_devices_logs_tfm.Usb.Text.{
  new_usb_regex, disconnection_found_regex, id_vendor_and_id_product_regex, id_vendor_regex,
  id_product_regex,
}
use storing_devices_logs_tfm.Usb.Checks.{check_if_information_about_device_found, store_update}
use storing_devices_logs_tfm.Usb.Fields.{HasNumber, int_of}
use storing_devices_logs_tfm.Usb.Storage.{storage_absent, connection_absent}
use storing_devices_logs_tfm.Usb.Disconnection.{disconnection_absent}
use storing_devices_logs_tfm.Usb.Information.{updated-numbers}
use storing_devices_logs_tfm.Usb.Inform.{information_known}
use storing_devices_logs_tfm.Usb.Log.{State, process_line}
use storing_devices_logs_tfm.Usb.Log.Lines.{IsAbout, interface_of-IsAbout}

pub record IsAnnouncement (id line : Bytes) : Type 0 where
  pub about : IsAbout id line
  pub announced : is_found (regex_search id_vendor_and_id_product_regex line) ≡ true
  pub vendor : HasNumber (text "idVendor") id_vendor_regex line
  pub product : HasNumber (text "idProduct") id_product_regex line
  pub not_new : regex_search new_usb_regex line ≡ none
  pub no_disconnection : regex_search disconnection_found_regex line ≡ none

-- The element with the two numbers, read in base 10.
abbrev pub announced_as : {id line : Bytes} → IsAnnouncement id line → UsbInterface → UsbInterface
announced_as c e = record e {
  id_vendor = int_of (c.vendor.first ∷ c.vendor.rest);
  id_product = int_of (c.product.first ∷ c.product.rest);
}

information_announcement :
    (id line : Bytes) (m : Interfaces) (e : UsbInterface)
    → (c : IsAnnouncement id line) → IsSorted m
    → find id m ≡ some e
    → check_if_information_about_device_found line m ≡ done (false, set id (announced_as c e) m)
unfolding store_update
information_announcement id line m e c sorted n =
    let i = interface_of-IsAbout line c.about in
    let known = ap (λ k. find k m) i ∙ n in
    information_known line m c.about.usb_found e c.about.usb_searched known
    ∙ rw (
      updated-numbers line e c.announced c.vendor c.product,
      i,
      replace-set id (announced_as c e) e m sorted n,
    )

-- On a sorted map of interfaces, a line that announces a device with its two numbers, on a port in
-- the map, writes both to the interface of that port, read as decimal digits from the first one on
-- and cut to the largest int, and does nothing else.
pub process_announcement :
    (id line : Bytes) (s : State) (e : UsbInterface)
    → (c : IsAnnouncement id line) → IsSorted s.interfaces
    → find id s.interfaces ≡ some e
    → process_line line s ≡ done (record s { interfaces = set id (announced_as c e) s.interfaces })
unfolding process_line
process_announcement id line s e c sorted n =
    let m = set id (announced_as c e) s.interfaces in
    ground (
      arith,
      storage_absent line s.interfaces c.about.no_storage,
      c.about.usb_searched,
      information_announcement id line s.interfaces e c sorted n,
      connection_absent line m c.not_new,
      disconnection_absent line m s.usbs c.no_disconnection,
    )
