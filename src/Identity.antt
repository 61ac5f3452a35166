-- ===== src/Identity.antt =====
-- from disk 2/example.cpp, from disk 2/nvme_example.cpp, sysfs/example.cpp and the two `main` of
-- from disk: serial numbers printed as they are. What the kernel answers is an argument.
pub mod Captures
pub mod Group
pub mod Reads
use storing_devices_logs_tfm.Base.{
  ℕ, ◌+◌, Bool, true, false, ℤ, is_zero, pos, negsuc, if◌then◌else◌, List, [], ◌∷◌, ◌++◌, Option,
  none, some, Bytes, text, take, drop, Outcome, done, fault, bad_index, uninitialised, ◌>>=◌,
  length, ltb,
}
use storing_devices_logs_tfm.Regex.{c_str, str}
use storing_devices_logs_tfm.Scsi.{has_end}
use storing_devices_logs_tfm.Decimal.{natural}
use storing_devices_logs_tfm.Usb.Log.{get_lines}
use storing_devices_logs_tfm.Serial.{Drive, get_disk_serial, get_disk_serial_by_command}
use Captures.{serial_regex, full_match}

abbrev pub line_of : Bytes → Bytes → Bytes
line_of label value = label ++ (value ++ b'\n' ∷ [])

-- What the two programs of from disk print of the number that their functions return.
abbrev pub serial_of_device : Bytes → Bytes → Bytes
serial_of_device disk_device serial_number =
    line_of (text "Serial number of " ++ (disk_device ++ text ": ")) serial_number

unfoldable pub print_serial : Drive → Bytes
print_serial d = serial_of_device (text "/dev/sda") (get_disk_serial d)

unfoldable pub print_serial_by_command : Drive → Bytes
print_serial_by_command d = serial_of_device (text "/dev/sda1") (get_disk_serial_by_command d)

-- sysfs/example.cpp: the lines of a file that may not open.
unfoldable pub serial_file_lines : List Bytes → Bytes
serial_file_lines [] = []
serial_file_lines (line ∷ lines) = line_of (text "Serial number: ") line ++ serial_file_lines lines

unfoldable pub print_serial_file : Option Bytes → ℕ × Bytes
unfolding serial_file_lines
print_serial_file none = (1, [])
print_serial_file (some bytes) = (0, serial_file_lines (get_lines bytes))

-- The fields that nvme_example.cpp sets, without the address of its buffer.
pub record NvmeAdminCmd : Type 0 where
  pub opcode : ℕ
  pub nsid : ℕ
  pub data_len : ℕ
  pub cdw10 : ℕ

abbrev pub mib : NvmeAdminCmd
mib = record { opcode = 6; nsid = 0; data_len = 4096; cdw10 = 1 }

-- `opened` is the descriptor, -1 if the device does not open. `ioctl` gives its result, and the
-- 4096 bytes of the buffer behind the call.
pub record NvmeDevice : Type 0 where
  pub opened : ℤ
  pub ioctl : ℤ → NvmeAdminCmd → ℤ × Bytes

abbrev pub nvme_lines : Bytes → Bytes
nvme_lines buf =
    line_of (text "SN: ") (c_str (take 20 (drop 4 buf)))
    ++ (line_of (text "SN: ") (c_str (take 40 (drop 24 buf)))
        ++ line_of (text "FW: ") (c_str (take 8 (drop 64 buf))))

unfoldable pub identify_nvme : NvmeDevice → ℕ × Bytes
identify_nvme d =
    if is_zero d.opened
    then (1, [])
    else let (ret, buf) = d.ioctl d.opened mib in
      if is_zero ret then (0, nvme_lines buf) else (1, [])

-- from disk 2/example.cpp. The file of the kernel, whether the disk opens, the bytes that the first
-- call writes to the array, and of the second, asked with whether the descriptor is open, the bytes from
-- `serial_no` to the end of the structure.
pub record Kernel : Type 0 where
  pub openind_file : Option Bytes
  pub disk_opens : Bool
  pub disk_serial : Option Bytes
  pub get_identity : Bool → Option Bytes

-- `getline` once; a stream that failed leaves the text empty.
unfoldable pub first_line : Option Bytes → Bytes
first_line none = []
first_line (some bytes) = elim (get_lines bytes) [ [] ↦ [] | line ∷ lines ↦ line ]

abbrev pub openind_serial : Option Bytes → Bytes
openind_serial file = str (full_match serial_regex (first_line file))

-- `<<` of an array of characters: behind the array the read is outside of it.
unfoldable pub array_text : Bytes → Outcome Bytes
array_text chars = if has_end chars then done (c_str chars) else fault bad_index

-- The loops over the characters.
unfoldable pub numbered : Bytes → ℕ → Bytes → Bytes
numbered label i [] = []
numbered label i (c ∷ chars) =
    label ++ (natural i ++ (text ": " ++ (c ∷ b'\n' ∷ numbered label (i + 1) chars)))

-- The bytes of the first call: it is made on a descriptor that may be -1, and then it fails.
abbrev pub serial_read : Kernel → Option Bytes
serial_read m = if m.disk_opens then m.disk_serial else none

abbrev pub was_read : Option Bytes → Bool
was_read none = false
was_read (some b) = true

-- The array of 21 characters, all of which are printed: what the call left out is not initialised.
unfoldable pub disk_array : Option Bytes → Outcome Bytes
disk_array none = fault uninitialised
disk_array (some written) =
    if ltb (length written) 21 then fault uninitialised else done (take 21 written)

unfoldable pub print_serials : Kernel → Bytes → Outcome Bytes
unfolding disk_array array_text numbered
print_serials m identity = do
  chars ← disk_array (serial_read m)
  disk ← array_text chars
  serial_no ← array_text identity
  done (
      line_of (text "Openind serial: ") (openind_serial m.openind_file)
      ++ (line_of (text "Disk serial: ") disk
          ++ (numbered (text "Disk serial char ") 0 chars
              ++ (line_of (text "SERIAL NUMBER BUENO?: ") serial_no
                  ++ numbered (text "DISK SERIAL BUENO char ") 0 (take 20 identity)))))

-- A first call that fails closes the descriptor, and the program goes on.
unfoldable pub compare_serials : Kernel → Outcome (ℕ × Bytes)
unfolding print_serials
compare_serials m = elim (m.get_identity (was_read (serial_read m))) [
  | none ↦ done (1, [])
  | some identity ↦ print_serials m identity >>= λ printed. done (0, printed)
]
