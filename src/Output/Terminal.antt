-- ===== src/Output/Terminal.antt =====
-- printUSBsMapInTerminal and printDisksMapInTerminal: what they write to the standard output.
pub mod Shown
use storing_devices_logs_tfm.Base.{
  ℕ, zero, suc, ◌+◌, ◌==◌, Bool, true, false, ◌||◌, if◌then◌else◌, List, [], ◌∷◌, ◌++◌, is_zero, ℤ,
  pos, Bytes, text, Outcome, done, fault, ◌>>=◌,
}
use Prim.Native.String.{String}
use storing_devices_logs_tfm.StdMap.{StdMap}
use storing_devices_logs_tfm.Decimal.{natural, to_string}
use storing_devices_logs_tfm.Usb.{UsbInfo, Usbs}
use storing_devices_logs_tfm.Disk.{HardDiskInfo}
use storing_devices_logs_tfm.Output.Size.{Floats, human_readable_byte_count}
use storing_devices_logs_tfm.Output.Html.{is_nil, all_spaces}

abbrev pub endl : Bytes
endl = b'\n' ∷ []

-- The loop over the times of a device.
unfoldable pub time_lines : List Bytes → Bytes
time_lines [] = []
time_lines (t ∷ ts) = text "   " ++ (t ++ (endl ++ time_lines ts))

abbrev pub field_line : Bool → String → String → Bytes → Bytes
field_line missing not_found name value =
    if missing then text not_found ++ endl else text name ++ (value ++ endl)

unfoldable pub print_usb : ℕ → UsbInfo → Bytes
unfolding time_lines
print_usb n i =
    text "||| USB "
    ++ (natural n
        ++ (text " |||"
            ++ (endl
                ++ (text "Connection times:"
                    ++ (endl
                        ++ (time_lines i.connection_times
                            ++ (text "Disconnection times:"
                                ++ (endl
                                    ++ (time_lines i.disconnection_times
                                        ++ (field_line (is_zero i.id_vendor) "Vendor ID not found"
                                              "Vendor ID: " (to_string i.id_vendor)
                                            ++ (field_line (is_zero i.id_product)
                                                  "Product ID not found" "Product ID: "
                                                  (to_string i.id_product)
                                                ++ (field_line (is_nil i.product_name)
                                                      "Product name not found" "Product name: "
                                                      i.product_name
                                                    ++ (field_line
                                                          (is_nil i.manufacturer
                                                            || all_spaces i.manufacturer)
                                                          "Manufacturer not found" "Manufacturer: "
                                                          i.manufacturer
                                                        ++ (field_line (is_nil i.serial_number)
                                                            "Serial number not found"
                                                            "Serial number: " i.serial_number
                                                            ++ endl))))))))))))))

-- The loop from the device number `n`.
unfoldable pub print_usbs_from : ℕ → Usbs → Bytes
unfolding print_usb
print_usbs_from n [] = []
print_usbs_from n ((k, i) ∷ usbs_map) = print_usb n i ++ print_usbs_from (n + 1) usbs_map

unfoldable pub print_usbs_map_in_terminal : Usbs → Bytes
unfolding print_usbs_from
print_usbs_map_in_terminal usbs_map = print_usbs_from 1 usbs_map

unfoldable pub size_line : Floats → ℕ → Outcome Bytes
unfolding human_readable_byte_count
size_line floats size =
    if size == 0
    then done (text "Size not found" ++ endl)
    else (human_readable_byte_count floats size true >>= λ t. done (text "Size: " ++ (t ++ endl)))

-- What one disk adds. A fault of the size ends the program, after the lines above it.
unfoldable pub print_disk : Floats → Bytes → HardDiskInfo → Outcome Bytes
unfolding size_line
print_disk floats path i =
    if i.is_empty
    then done []
    else (size_line floats i.size >>= λ size. done (
        text "||| "
        ++ (path
            ++ (text " |||"
                ++ (endl
                    ++ (text "Disk interface: "
                        ++ (i.disk_type
                            ++ (endl
                                ++ (field_line (is_nil i.product) "Product not found" "Product: "
                                      i.product
                                    ++ (field_line (is_nil i.version) "Version not found"
                                          "Version: " i.version
                                        ++ (field_line (is_nil i.firmware)
                                              "Firmware version not found" "Firmware version: "
                                              i.firmware
                                            ++ (field_line (is_nil i.serial_number)
                                                  "Serial number not found" "Serial number: "
                                                  i.serial_number
                                                ++ (size ++ endl)))))))))))))

unfoldable pub print_disks_map_in_terminal : Floats → StdMap HardDiskInfo → Outcome Bytes
unfolding print_disk
print_disks_map_in_terminal floats [] = done []
print_disks_map_in_terminal floats ((path, i) ∷ disks_map) = print_disk floats path i >>= λ out.
    print_disks_map_in_terminal floats disks_map >>= λ rest. done (out ++ rest)
