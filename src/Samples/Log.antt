-- ===== src/Samples/Log.antt =====
-- A log of one storage device, and what the parts of usb.cpp make of it.
use storing_devices_logs_tfm.Base.{
  if◌then◌else◌, true, All, ◌⊎◌, ◌≡◌, refl, [], ◌∷◌, ◌++◌, some, none, Bytes, text, equal, less,
  done, fault, uninitialised, pos,
}
use storing_devices_logs_tfm.Regex.{literal, match_at, first_match, c_str, regex_search}
use storing_devices_logs_tfm.Regex.Search.{Leftmost, regex_search-Leftmost, regex_search_complete}
use storing_devices_logs_tfm.StdMap.{find, insert, erase, replace}
use storing_devices_logs_tfm.Usb.{UsbInfo}
use storing_devices_logs_tfm.Usb.Text.{
  storage_regex, usb_regex, get_interface_id_from_regex, index_of, substr, behind, value_behind,
  string_to_int, digits_value,
}
use storing_devices_logs_tfm.Usb.Values.{lacks}
use storing_devices_logs_tfm.Usb.Dates.{IsDateOf, date_of-IsDate}
use storing_devices_logs_tfm.Mounts.Split.{unsplit}
use storing_devices_logs_tfm.Usb.Log.Newlines.{ends_line, get_lines-unsplit}
use storing_devices_logs_tfm.Usb.Names.{IsPort, interface_of-IsPort}
use storing_devices_logs_tfm.Usb.Checks.{
  updated_by, number_of, field_of, check_if_storage_device, check_if_new_device_connected,
  check_if_device_disconnected, check_if_information_about_device_found, interface_of, date_of,
}
use storing_devices_logs_tfm.Usb.Log.{process_line, process_lines, get_usbs_info, get_lines}
use storing_devices_logs_tfm.Usb.Log.Save.{reusing, save_interfaces_info_in_usbs_map}

abbrev pub new_line : Bytes
new_line = text "Mar 12 10:15:01 h kernel: usb 1-1: new high-speed USB device number 5"

abbrev pub found_line : Bytes
found_line =
    text "Mar 12 10:15:01 h kernel: usb 1-1: New USB device found, idVendor=0951, idProduct=1666"

abbrev pub unnumbered_line : Bytes
unnumbered_line = text "Mar 12 10:15:01 h kernel: usb 1-1: New USB device found"

abbrev pub product_line : Bytes
product_line = text "Mar 12 10:15:01 h kernel: usb 1-1: Product: DataTraveler"

abbrev pub manufacturer_line : Bytes
manufacturer_line = text "Mar 12 10:15:01 h kernel: usb 1-1: Manufacturer: Kingston"

abbrev pub serial_line : Bytes
serial_line = text "Mar 12 10:15:01 h kernel: usb 1-1: SerialNumber: E0D5"

abbrev pub storage_line : Bytes
storage_line =
    text "Mar 12 10:15:02 h kernel: usb-storage 1-1:1.0: USB Mass Storage device detected"

abbrev pub gone_line : Bytes
gone_line = text "Mar 12 11:00:00 h kernel: usb 1-1: USB disconnect, device number 5"

abbrev pub newline : Bytes
newline = b'\n' ∷ []

abbrev pub plugged_in : Bytes
plugged_in =
    new_line
    ++ (newline
        ++ (found_line
            ++ (newline
                ++ (product_line
                    ++ (newline
                        ++ (manufacturer_line
                            ++ (newline
                                ++ (serial_line ++ (newline ++ (storage_line ++ newline))))))))))

abbrev pub log : Bytes
log = plugged_in ++ gone_line

abbrev pub traveler : UsbInfo
traveler = record {
  connection_times = text "Mar 12 10:15:01" ∷ [];
  disconnection_times = text "Mar 12 11:00:00" ∷ [];
  id_vendor = pos 951;
  id_product = pos 1666;
  product_name = text "DataTraveler";
  manufacturer = text "Kingston";
  serial_number = text "E0D5";
}

-- Puts the definitions that a run goes through on one line.
unfoldable pub runs : Unit {0}
unfolding text literal match_at first_match regex_search find insert erase replace
    get_interface_id_from_regex index_of substr behind value_behind string_to_int digits_value
    number_of field_of updated_by check_if_storage_device check_if_new_device_connected
    check_if_device_disconnected check_if_information_about_device_found process_line process_lines
    get_usbs_info get_lines save_interfaces_info_in_usbs_map equal less
runs = tt

run-log : get_usbs_info reusing (some log) ≡ done ((text "E0D5", traveler) ∷ [])
unfolding runs
run-log = refl

run-log_open :
    get_usbs_info reusing (some plugged_in)
    ≡ done ((text "E0D5", record traveler { disconnection_times = [] }) ∷ [])
unfolding runs
run-log_open = refl

run-log_unnumbered :
    get_usbs_info reusing (some (new_line ++ (newline ++ unnumbered_line))) ≡ fault uninitialised
unfolding runs
run-log_unnumbered = refl

unopened : get_usbs_info reusing none ≡ done []
unfolding runs
unopened = refl

storage_found : regex_search storage_regex storage_line ≡ some (text "usb-storage 1-1")
unfolding runs
storage_found = refl

storage-Leftmost : Leftmost storage_regex (c_str storage_line) (text "usb-storage 1-1")
storage-Leftmost = regex_search-Leftmost storage_regex storage_line storage_found

storage_found_again : (m : Bytes) × (regex_search storage_regex storage_line ≡ some m)
storage_found_again =
    regex_search_complete storage_regex storage_line storage-Leftmost.before storage-Leftmost.occurs

usb_found : regex_search usb_regex gone_line ≡ some (text "usb 1-1")
unfolding runs
usb_found = refl

interface_of-IsPort_example :
    IsPort (interface_of gone_line) × (text "usb 1-1" ≡ text "usb " ++ interface_of gone_line)
interface_of-IsPort_example = interface_of-IsPort gone_line usb_found

-- On the days 4 to 9 of a month no digit from 1 to 3 stands in front of the time.
fourth_day : date_of (text "Mar  4 10:15:01 h kernel: usb 1-1: new") ≡ []
unfolding runs
fourth_day = refl

twelfth_day : date_of new_line ≡ text "Mar 12 10:15:01"
unfolding runs
twelfth_day = refl

date_of-IsDate_example : (date_of new_line ≡ []) ⊎ IsDateOf new_line (date_of new_line)
date_of-IsDate_example = date_of-IsDate new_line

get_lines-unsplit_example :
    All (λ line. lacks b'\n' line ≡ true) (get_lines log)
    × (unsplit (get_lines log) b'\n' ≡ (if ends_line true log then log else log ++ b'\n' ∷ []))
get_lines-unsplit_example = get_lines-unsplit log

-- The last line of a log that ends with a newline is the one in front of it.
no_line_behind : get_lines (text "a\n\nb\n") ≡ text "a" ∷ [] ∷ text "b" ∷ []
unfolding runs
no_line_behind = refl
