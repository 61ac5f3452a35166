-- ===== src/Output/Html.antt =====
-- printHTML: what it writes to report.html, and the file-scope variables that it leaves. The file
-- is opened and closed without an error.
use storing_devices_logs_tfm.Base.{
  ℕ, ◌+◌, ltb, ◌==◌, Bool, true, false, not, ◌&&◌, ◌||◌, if◌then◌else◌, List, [], ◌∷◌, ◌++◌, length,
  is_zero, Bytes, text, Outcome, done, ◌>>=◌,
}
use Prim.Native.String.{String}
use storing_devices_logs_tfm.StdMap.{StdMap}
use storing_devices_logs_tfm.Decimal.{natural, to_string}
use storing_devices_logs_tfm.Usb.{UsbInfo, Usbs}
use storing_devices_logs_tfm.Disk.{HardDiskInfo}
use storing_devices_logs_tfm.Output.{
  Globals, initialize_usb_variables, initialize_usb_times, initialize_disk_variables,
}
use storing_devices_logs_tfm.Output.Texts.{
  start_html, before_hard_disks, end_html, times_table, times_end,
}
use storing_devices_logs_tfm.Output.Times.{
  Clock, convert_syslog_timestamp_to_tm, get_utc_time_from_local_time, get_est_time_from_utc_time,
  get_string_from_tm,
}
use storing_devices_logs_tfm.Output.Size.{Floats, human_readable_byte_count}

abbrev pub is_nil : Bytes → Bool
is_nil [] = true
is_nil (c ∷ s) = false

-- `find_first_not_of(' ') == npos`.
abbrev pub all_spaces : Bytes → Bool
all_spaces [] = true
all_spaces (c ∷ s) = (c == b' ') && all_spaces s

abbrev pub or_kept : Bytes → Bytes → Bytes
or_kept kept s = if is_nil s then kept else s

-- The assignments at the head of the loop over the devices.
unfoldable pub note_usb : UsbInfo → Globals → Globals
note_usb i g = record g {
  usb_vendor_id = if is_zero i.id_vendor then g.usb_vendor_id else to_string i.id_vendor;
  usb_product_id = if is_zero i.id_product then g.usb_product_id else to_string i.id_product;
  usb_product_name = or_kept g.usb_product_name i.product_name;
  usb_manufacturer =
      if is_nil i.manufacturer || all_spaces i.manufacturer
      then g.usb_manufacturer
      else i.manufacturer;
  usb_serial_number = or_kept g.usb_serial_number i.serial_number;
  usb_connected =
      if ltb (length i.disconnection_times) (length i.connection_times)
      then text "green;\">Connected"
      else g.usb_connected;
}

abbrev pub cell : String → Bytes → Bytes → Bytes
cell name value rest =
    text "</td></tr><tr><td style=\"background-color:#dadada\"><b>"
    ++ (text name ++ (text "</b></td><td>" ++ (value ++ rest)))

unfoldable pub usb_table : ℕ → Globals → Bytes
usb_table usb_iterator g =
    text "<table align=\"center\"><tr style=\"background-color:#dadada;\">"
    ++ (text "<th style=\"font-size:20px;\">USB "
        ++ (natural usb_iterator
            ++ (text "</th><th style=\"color: "
                ++ (g.usb_connected
                    ++ (text
                          "</th></tr><tr><td style=\"background-color:#dadada\"><b>Serial Number</b></td><td>"
                        ++ (g.usb_serial_number
                            ++ cell "Product Name" g.usb_product_name (
                                cell "Manufacturer" g.usb_manufacturer (
                                  cell "Vendor ID" g.usb_vendor_id (
                                    cell "Product ID" g.usb_product_id
                                      (text "</td></tr></table>"))))))))))

-- The strings of one time in the three time zones.
unfoldable pub local_string : Clock → Bytes → Outcome Bytes
local_string clock t = get_string_from_tm (convert_syslog_timestamp_to_tm clock t)

unfoldable pub utc_string : Clock → Bytes → Outcome Bytes
utc_string clock t =
    get_string_from_tm (get_utc_time_from_local_time clock (convert_syslog_timestamp_to_tm clock t))

unfoldable pub est_string : Clock → Bytes → Outcome Bytes
est_string clock t = get_string_from_tm (
    get_est_time_from_utc_time clock
      (get_utc_time_from_local_time clock (convert_syslog_timestamp_to_tm clock t)))

unfoldable pub note_connection : Clock → Bytes → Globals → Outcome Globals
note_connection clock t g = local_string clock t >>= λ l. utc_string clock t >>= λ u.
    est_string clock t >>= λ e.
    done (record g { usb_localtime_connection = l; usb_utc_connection = u; usb_est_connection = e })

-- The disconnection under the iterator, if it is not at the end.
unfoldable pub note_disconnection : Clock → List Bytes → Globals → Outcome Globals
note_disconnection clock [] g = done g
note_disconnection clock (t ∷ ts) g = local_string clock t >>= λ l. utc_string clock t >>= λ u.
    est_string clock t >>= λ e. done (record g {
      usb_localtime_disconnection = l;
      usb_utc_disconnection = u;
      usb_est_disconnection = e;
    })

-- `it_time_disconnection++`, if it is not at the end.
abbrev pub next : List Bytes → List Bytes
next [] = []
next (t ∷ ts) = ts

abbrev pub time_cell : Bytes → Bytes → Bytes
time_cell value rest = text "<td><time>" ++ (value ++ (text "</time></td>" ++ rest))

unfoldable pub time_row : Globals → Bytes
time_row g =
    text "<tr>"
    ++ time_cell g.usb_localtime_connection (
        time_cell g.usb_localtime_disconnection (
          time_cell g.usb_utc_connection (
            time_cell g.usb_utc_disconnection
              (time_cell g.usb_est_connection (time_cell g.usb_est_disconnection (text "</tr>"))))))

-- The loop over the times: connections, disconnections, the rows so far.
unfoldable pub time_rows :
    Clock → List Bytes → List Bytes → Bytes → Globals → Outcome (Bytes × Globals)
unfolding note_connection note_disconnection time_row initialize_usb_times
time_rows clock [] ds usb_all_times_only g = done (usb_all_times_only, g)
time_rows clock (t ∷ ts) ds usb_all_times_only g = note_connection clock t g >>= λ g₁.
    note_disconnection clock ds g₁ >>= λ g₂.
    time_rows clock ts (next ds) (usb_all_times_only ++ time_row g₂) (initialize_usb_times g₂)

-- The loop over the devices: what it appends to `out`.
unfoldable pub usb_rows : Clock → ℕ → Usbs → Bytes → Globals → Outcome (Bytes × Globals)
unfolding note_usb usb_table time_rows initialize_usb_variables
usb_rows clock usb_iterator [] out g = done (out, g)
usb_rows clock usb_iterator ((k, i) ∷ usbs_map) out g =
    let g₁ = note_usb i g in
    time_rows clock i.connection_times i.disconnection_times [] g₁ >>= λ (times, g₂).
    usb_rows clock (usb_iterator + 1) usbs_map
      (out ++ (usb_table usb_iterator g₁ ++ (times_table ++ (times ++ times_end))))
      (initialize_usb_variables g₂)

unfoldable pub size_text : Floats → ℕ → Bytes → Outcome Bytes
unfolding human_readable_byte_count
size_text floats size kept =
    if size == 0 then done kept else human_readable_byte_count floats size true

unfoldable pub note_disk : Floats → Bytes → HardDiskInfo → Globals → Outcome Globals
unfolding size_text
note_disk floats path i g = size_text floats i.size g.disk_size >>= λ size. done (record g {
  disk_path = path;
  disk_interface = i.disk_type;
  disk_product = or_kept g.disk_product i.product;
  disk_version = or_kept g.disk_version i.version;
  disk_firmware_version = or_kept g.disk_firmware_version i.firmware;
  disk_serial_number = or_kept g.disk_serial_number i.serial_number;
  disk_size = size;
})

unfoldable pub disk_table : Globals → Bytes
disk_table g =
    text "<table align=\"center\"><tr style=\"background-color:#dadada\">"
    ++ (text "<th style=\"font-size:20px;\">"
        ++ (g.disk_path
            ++ (text "</th><th></th></tr><tr><td style=\"background-color:#dadada\">"
                ++ (text "<b>Disk interface</b></td><td>"
                    ++ (g.disk_interface
                        ++ cell "Product" g.disk_product (
                            cell "Version" g.disk_version (
                              cell "Firmware version" g.disk_firmware_version (
                                cell "Serial number" g.disk_serial_number (
                                  cell "Size" g.disk_size
                                    (text "</td></tr></table><br><br><br><br>"))))))))))

-- One round of the loop over the disks: the variables are reset also for an empty disk.
unfoldable pub disk_row : Floats → Bytes → HardDiskInfo → Globals → Outcome (Bytes × Globals)
unfolding note_disk disk_table initialize_disk_variables
disk_row floats path i g =
    if i.is_empty
    then done ([], initialize_disk_variables g)
    else (note_disk floats path i g >>= λ g₁. done (disk_table g₁, initialize_disk_variables g₁))

-- The loop over the disks, with `at_least_one_disk_found`.
unfoldable pub disk_rows :
    Floats → StdMap HardDiskInfo → Bool → Bytes → Globals → Outcome ((Bytes × Bool) × Globals)
unfolding disk_row
disk_rows floats [] found out g = done ((out, found), g)
disk_rows floats ((path, i) ∷ disks_map) found out g = disk_row floats path i g >>= λ (row, g₁).
    disk_rows floats disks_map (found || not i.is_empty) (out ++ row) g₁

abbrev pub no_disks : Bytes
no_disks = text "<p style=\"text-align: center;\">Disks info not found.</p>"

unfoldable pub print_html :
    Clock → Floats → Usbs → StdMap HardDiskInfo → Globals → Outcome (Bytes × Globals)
unfolding usb_rows disk_rows
print_html clock floats usbs_map disks_map g =
    usb_rows clock 1 usbs_map start_html g >>= λ (out₁, g₁).
    disk_rows floats disks_map false (out₁ ++ before_hard_disks) g₁ >>= λ ((out₂, found), g₂).
    done (out₂ ++ ((if found then [] else no_disks) ++ end_html), g₂)
