-- ===== src/Samples/Programs.antt =====
-- The programs that stand apart from the tool, on small answers of the kernel and of the libraries.
use storing_devices_logs_tfm.Base.{
  true, false, ◌≡◌, refl, [], ◌∷◌, ◌++◌, some, none, Bytes, text, done, fault, bad_index,
  uninitialised, ◌⊎◌, if◌then◌else◌, ltb, length, equal, pos, arith,
}
use storing_devices_logs_tfm.Regex.{c_str, literal}
use storing_devices_logs_tfm.Usb.Log.{get_lines}
use storing_devices_logs_tfm.Scsi.{has_end}
use storing_devices_logs_tfm.Mounts.{split}
use storing_devices_logs_tfm.Handles.{IsBalanced, live_after, acquire, access, release}
use storing_devices_logs_tfm.Daemon.{Peer, printed_lines, request_serials}
use storing_devices_logs_tfm.Daemon.Tokens.{non_empty, request_serials-split}
use storing_devices_logs_tfm.Libudev.{UdevLibrary, list_devices}
use storing_devices_logs_tfm.Libudev.Release.{list_devices-IsBalanced}
use storing_devices_logs_tfm.SdDevice.{SdDevice, SdLibrary, strtoull, list_disks}
use storing_devices_logs_tfm.SdDevice.Sizes.{HasSize, disk_lines, list_disks-disk_lines}
use storing_devices_logs_tfm.Uefi.{
  EfiCodes, Firmware, RuntimeServices, vendor_guid, efi_main, print_variable,
}
use storing_devices_logs_tfm.Uefi.Value.{EndsClean, IsUnended, efi_main_ends}
use storing_devices_logs_tfm.Identity.{
  first_line, openind_serial, identify_nvme, print_serial_file, Kernel, compare_serials,
}
use storing_devices_logs_tfm.Identity.Group.{IsShort, openind_serial-IsShort}
use storing_devices_logs_tfm.Identity.Captures.{serial_regex, full_match}
use storing_devices_logs_tfm.Decimal.{natural, digits_onto}

-- A daemon that answers with two numbers, an empty line between them.
abbrev answer : Bytes
answer = text "S1\n\nS2\n" ++ 0 ∷ []

abbrev daemon : Peer
daemon = record { socket = true; sendto = λ message path. true; recv = some answer }

request_serials_run : request_serials daemon ≡ done (0, text "S1\nS2\n")
unfolding request_serials text c_str has_end
request_serials_run = refl

request_serials_short :
    request_serials (record daemon { recv = some (text "S1") }) ≡ fault uninitialised
unfolding request_serials text c_str has_end
request_serials_short = refl

request_serials-split_example : request_serials daemon ≡ (
    if has_end answer
    then done (0, printed_lines (non_empty (split (c_str answer) b'\n')))
    else fault (if ltb (length answer) 1024 then uninitialised else bad_index))
request_serials-split_example = request_serials-split daemon answer refl refl refl

-- Two block devices: one has a serial number, the other one does not open.
abbrev library : UdevLibrary
library = record {
  udev_new = some 1;
  udev_enumerate_new = some 2;
  scan_devices = λ subsystem. text "/a" ∷ text "/b" ∷ [];
  device_new_from_syspath =
      λ path. elim path [ [] ↦ none | x ∷ s ↦ if ltb (length s) 2 then some 3 else none ];
  get_property_value = λ device name. some (text "X");
  pointer_text = λ device. text "0x3";
}

list_devices_run :
    (list_devices
      (record library { scan_devices = λ subsystem. text "/a" ∷ text "/bc" ∷ [] })).printed
    ≡ text "Device name: X\nPath: /a\nDevice: 0x3\nSerial number: X\n"
unfolding list_devices text
list_devices_run = refl

list_devices-IsBalanced_example : IsBalanced (list_devices library).uses
list_devices-IsBalanced_example = list_devices-IsBalanced library

-- A release twice is no balanced use.
released_twice : live_after (acquire 1 ∷ release 1 ∷ release 1 ∷ []) [] ≡ none
unfolding live_after
released_twice = refl

-- A disk and one of its partitions.
abbrev disk : SdDevice
disk = record {
  get_devtype = some (text "disk");
  get_sysattr_value = λ attribute. some (natural 2048);
  get_sysname = text "sda";
}

abbrev partition : SdDevice
partition = record disk { get_devtype = some (text "partition"); get_sysname = text "sda1" }

abbrev sd_library : SdLibrary
sd_library = record {
  list_new = some 1;
  list_by_subsystem = λ subsystem. some (disk ∷ partition ∷ []);
}

list_disks_run : (list_disks sd_library).printed ≡ text "Device: sda\nSize: 2048 bytes\n"
unfolding list_disks text natural digits_onto equal
list_disks_run = refl

strtoull_runs :
    (strtoull (text " 12x") ≡ 12)
    × (strtoull (text "-1") ≡ 18446744073709551615)
    × (strtoull (text "99999999999999999999") ≡ 18446744073709551615)
unfolding strtoull text
strtoull_runs = (refl, refl, refl)

disk-HasSize : HasSize disk
disk-HasSize = record { sectors = 2048; is_size = refl; fits = omega arith }

partition-HasSize : HasSize partition
partition-HasSize = record { sectors = 2048; is_size = refl; fits = omega arith }

list_disks-disk_lines_example :
    ((list_disks sd_library).status ≡ 0)
    × ((list_disks sd_library).printed
        ≡ disk_lines (disk ∷ partition ∷ []) (disk-HasSize, (partition-HasSize, tt)))
    × IsBalanced (list_disks sd_library).uses
list_disks-disk_lines_example =
    list_disks-disk_lines sd_library 1 (disk ∷ partition ∷ [])
      (disk-HasSize, (partition-HasSize, tt)) refl refl

-- A firmware that has the variable: `V` in characters of two bytes.
abbrev codes : EfiCodes
codes = record {
  efi_success = 0;
  efi_buffer_too_small = 5;
  efi_not_found = 14;
  efi_out_of_resources = 9;
  decimal_status = natural;
}

abbrev services : Bytes → RuntimeServices
services value = record {
  get_variable = λ name guid size buffer. elim buffer [
    | none ↦ (5, length value, [])
    | some b ↦ (0, size, value)
  ];
}

abbrev firmware : Bytes → Firmware
firmware value = record {
  system_table = record { runtime_services = services value };
  allocate = λ size. some 7;
  global_guid = vendor_guid;
}

abbrev one_character : Firmware
one_character = firmware (b'V' ∷ 0 ∷ 0 ∷ 0 ∷ [])

efi_main_run :
    efi_main codes one_character
    ≡ done (record {
      returned = 0;
      characters_printed = text "The value of my_var_name is: V\n";
      pool = acquire 7 ∷ access 7 ∷ access 7 ∷ release 7 ∷ [];
    })
unfolding efi_main text
efi_main_run = refl

efi_main_unended : efi_main codes (firmware (b'V' ∷ 0 ∷ [])) ≡ fault bad_index
unfolding efi_main text
efi_main_unended = refl

print_variable_run :
    (print_variable one_character).characters_printed ≡ text "This variable is: my_var_name\n"
unfolding print_variable text
print_variable_run = refl

efi_main_ends_example :
    EndsClean codes one_character
    ⊎ (IsUnended codes one_character × (efi_main codes one_character ≡ fault bad_index))
efi_main_ends_example = efi_main_ends codes one_character

-- The group is the longest run without white space behind the last occurrence.
captures :
    (full_match serial_regex (text "a serial_short=AB12 x") ≡ some (text "AB12"))
    × (full_match serial_regex (text "serial_short=1 serial_short=2") ≡ some (text "2"))
    × (full_match serial_regex (text "serial_short= 1") ≡ none)
unfolding full_match literal text
captures = (refl, refl, refl)

print_serial_file_run : print_serial_file (some (text "S1\n")) ≡ (0, text "Serial number: S1\n")
unfolding print_serial_file get_lines text
print_serial_file_run = refl

-- The descriptor 0 is taken for a failure.
identify_nvme_zero :
    identify_nvme (record { opened = pos 0; ioctl = λ fd cmd. (pos 0, []) }) ≡ (1, [])
unfolding identify_nvme
identify_nvme_zero = refl

abbrev machine : Kernel
machine = record {
  openind_file = some (text "serial_short=Q\n");
  disk_opens = false;
  disk_serial = none;
  get_identity = λ opened. some (0 ∷ []);
}

compare_serials_run : compare_serials machine ≡ fault uninitialised
unfolding compare_serials
compare_serials_run = refl

abbrev openind_file : Bytes
openind_file = text "a serial_short=AB12 x\n"

openind_serial_run : openind_serial (some openind_file) ≡ text "AB12"
unfolding first_line get_lines full_match literal text
openind_serial_run = refl

openind_serial-IsShort_example :
    (openind_serial (some openind_file) ≡ [])
    ⊎ IsShort (first_line (some openind_file)) (openind_serial (some openind_file))
openind_serial-IsShort_example = openind_serial-IsShort (some openind_file)
