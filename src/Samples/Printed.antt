-- ===== src/Samples/Printed.antt =====
-- What the terminal and the report show for one device and one disk.
use Prim.Native.String.{String}
use storing_devices_logs_tfm.Base.{◌≡◌, refl, equal, [], ◌∷◌, ◌++◌, Bytes, text, done}
use storing_devices_logs_tfm.Decimal.{natural, to_string, digits_onto}
use storing_devices_logs_tfm.Output.{at_start}
use storing_devices_logs_tfm.Output.Size.{human_readable_byte_count, prefix, letter_at}
use storing_devices_logs_tfm.Output.Times.{
  get_string_from_tm, month_name, convert_syslog_timestamp_to_tm,
}
use storing_devices_logs_tfm.Output.Html.{local_string, time_row}
use storing_devices_logs_tfm.Output.Terminal.{
  print_usb, time_lines, print_usbs_map_in_terminal, print_usbs_from, print_disk, size_line,
  print_disks_map_in_terminal,
}
use storing_devices_logs_tfm.Samples.Report.{clock, floats, usbs, disks, rounds}

abbrev line : String → Bytes → Bytes
line s rest = text s ++ (b'\n' ∷ rest)

shown_disks :
    print_disks_map_in_terminal floats disks
    ≡ done (
        line "||| /dev/sda |||" (
          line "Disk interface: " (
            line "Product not found" (
              line "Version not found" (
                line "Firmware version not found"
                  (line "Serial number not found" (line "Size: 1 TB" (line "" []))))))))
unfolding text print_disks_map_in_terminal print_disk size_line human_readable_byte_count prefix
    letter_at natural digits_onto rounds
shown_disks = refl

shown_usbs :
    print_usbs_map_in_terminal usbs
    ≡ line "||| USB 1 |||" (
        line "Connection times:" (
          line "   Mar 12 10:15:01" (
            line "Disconnection times:" (
              line "   Mar 12 11:00:00" (
                line "Vendor ID: 951" (
                  line "Product ID: 1666" (
                    line "Product name: DataTraveler" (
                      line "Manufacturer: Kingston"
                        (line "Serial number: E0D5" (line "" []))))))))))
unfolding text print_usbs_map_in_terminal print_usbs_from print_usb time_lines natural to_string
    digits_onto
shown_usbs = refl

shown_time : local_string clock (text "Mar 12 10:15:01") ≡ done (text "March 12 at 0:0:0")
unfolding text local_string convert_syslog_timestamp_to_tm get_string_from_tm month_name natural
    to_string digits_onto equal
shown_time = refl

shown_row :
    time_row at_start
    ≡ text "<tr><td><time></time></td><td><time></time></td><td><time></time></td>"
      ++ text "<td><time></time></td><td><time></time></td><td><time></time></td></tr>"
unfolding text time_row
shown_row = refl
