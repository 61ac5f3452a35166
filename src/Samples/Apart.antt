-- ===== src/Samples/Apart.antt =====
-- The theorems on the programs apart, at a table of mounts and a serial number.
use storing_devices_logs_tfm.Base.{
  true, false, ◌≡◌, refl, [], ◌∷◌, ◌++◌, some, none, Bytes, text, done, fault, bad_index, equal,
}
use storing_devices_logs_tfm.Usb.Values.{lacks}
use storing_devices_logs_tfm.Disk.{unsigned_char_to_string}
use storing_devices_logs_tfm.Disk.Info.{HdDriveid, ata_info}
use storing_devices_logs_tfm.Disk.Laws.{lacks_space}
use storing_devices_logs_tfm.Mounts.{split, begin_token, is_device, sysfs_path, find_mount}
use storing_devices_logs_tfm.Mounts.Lookup.{mounted, IsOther, find_mount-parent}
use storing_devices_logs_tfm.Scsi.{Target}
use storing_devices_logs_tfm.Serial.{Drive, get_disk_serial}
use storing_devices_logs_tfm.Serial.Trim.{get_disk_serial-ata_info}

proc-IsOther : IsOther (text "sda") (text "proc /proc proc rw 0 0")
unfolding text split is_device begin_token equal
proc-IsOther = refl

sda_lacks : lacks b' ' (text "sda") ≡ true
unfolding text
sda_lacks = refl

mount_lacks : lacks b' ' (text "/media" ++ b'/' ∷ text "stick") ≡ true
unfolding text
mount_lacks = refl

stick_lacks : lacks b'/' (text "stick") ≡ true
unfolding text
stick_lacks = refl

find_mount-parent_example :
    find_mount (text "sda") (
      (text "proc /proc proc rw 0 0" ∷ [])
      ++ mounted (text "sda") (text "/media" ++ b'/' ∷ text "stick") (text "vfat rw 0 0") ∷ [])
    ≡ done (some (text "/media"))
find_mount-parent_example =
    find_mount-parent (text "sda") (text "/media") (text "stick") (text "vfat rw 0 0")
      (text "proc /proc proc rw 0 0" ∷ []) [] sda_lacks mount_lacks stick_lacks (proc-IsOther, tt)

-- A line of the table with nothing behind the device.
short_line : find_mount (text "sda") (text "/dev/sda" ∷ []) ≡ fault bad_index
unfolding text find_mount split is_device sysfs_path begin_token equal
short_line = refl

abbrev serial_no : Bytes
serial_no = text "WD 01234567890123   "

abbrev drive : Drive
drive = record {
  opens = true;
  hdio_get_identity = some serial_no;
  hdio_drive_cmd = false;
  id_data = none;
}

abbrev identity : HdDriveid
identity = record { serial_no = serial_no; fw_rev = []; model = [] }

get_disk_serial-ata_info_example :
    ((ata_info identity).serial_number ≡ unsigned_char_to_string (get_disk_serial drive))
    × (lacks_space (get_disk_serial drive) ≡ true
        → (ata_info identity).serial_number ≡ get_disk_serial drive)
get_disk_serial-ata_info_example = get_disk_serial-ata_info drive identity refl refl

abbrev header : Bytes
header = 128 ∷ 6 ∷ 2 ∷ 31 ∷ 0 ∷ 0 ∷ 0 ∷ []

abbrev target : Target
target = record {
  opens = true;
  sg_io = λ h. some ((0 ∷ header) ++ (text "Kingston" ++ text "DataTraveler"));
}
