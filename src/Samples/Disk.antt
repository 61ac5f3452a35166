-- ===== src/Samples/Disk.antt =====
-- The theorems on hard_disk.cpp and on the numbers, at concrete disks.
use storing_devices_logs_tfm.Base.{
  inl, ◌≡◌, arith, refl, ◌↔◌, ◌*◌, ◌≤◌, less, List, [], ◌∷◌, ◌++◌, some, none, Bytes, text, pos,
  done, true, false, length, take, drop,
}
use storing_devices_logs_tfm.Regex.{regex_search, first_match, match_at, literal}
use storing_devices_logs_tfm.StdMap.{IsSorted, find}
use storing_devices_logs_tfm.Usb.Text.{string_to_int}
use storing_devices_logs_tfm.Decimal.{to_string}
use storing_devices_logs_tfm.Decimal.RoundTrip.{string_to_int-to_string}
use storing_devices_logs_tfm.Disk.{unsigned_char_to_string}
use storing_devices_logs_tfm.Disk.Names.{insert, get_disks_set}
use storing_devices_logs_tfm.Disk.Info.{
  Device, blank, nvme_info, get_info_from_disk, get_disks_info, left_open,
}
use storing_devices_logs_tfm.Disk.Set.{IsIncreasing, Has, IsNamed, get_disks_set-IsNamed}
use storing_devices_logs_tfm.Disk.Map.{get_disks_info-IsNamed}
use storing_devices_logs_tfm.Disk.Laws.{
  IsIdentified, lacks_space, get_info_from_disk-is_empty, get_info_from_disk-left_open, HasSize,
  IsCounted, get_info_from_disk-size, unsigned_char_to_string-lacks_space, nvme_info-layout,
}

-- An ATA disk with sectors of 4096 bytes whose size only BLKGETSIZE gives.
abbrev pub ata_disk : Device
ata_disk = record {
  opens = true;
  hdio_get_identity =
      some (record { serial_no = text "WD 1"; fw_rev = text "01"; model = text "Blue  Disk" });
  nvme_ioctl_admin_cmd = λ c. none;
  blkgetsize_probe = true;
  blkgetsize64 = none;
  blksszget = some (pos 4096);
  blkgetsize = some (pos 80);
  buf = 4096;
}

abbrev entries : List Bytes
entries = text "sda1" ∷ text "tty0" ∷ text "nvme0n1" ∷ text "sda" ∷ []

abbrev buffer : Bytes
buffer = text "vid.SERIAL-NUMBER-00000 MODEL-NUMBER-01234567890123456789012345 FW 00001........."

buffer-length : 72 ≤ length buffer
unfolding text
buffer-length = omega arith

get_disks_set_test : get_disks_set (some entries) ≡ text "/dev/nvme0n1" ∷ text "/dev/sda" ∷ []
unfolding get_disks_set regex_search text first_match match_at literal insert less
get_disks_set_test = refl

get_disks_set-IsNamed_example :
    IsIncreasing (get_disks_set (some entries))
    × ((k : Bytes) → Has k (get_disks_set (some entries)) ↔ IsNamed k entries)
get_disks_set-IsNamed_example = get_disks_set-IsNamed entries

get_disks_info-IsNamed_example :
    IsSorted (get_disks_info (some entries) (λ k. ata_disk))
    × ((k : Bytes)
        → IsNamed k entries
        → find k (get_disks_info (some entries) (λ k. ata_disk))
          ≡ some (get_info_from_disk ata_disk).0)
    × ((k : Bytes)
        → ¬ IsNamed k entries
        → find k (get_disks_info (some entries) (λ k. ata_disk)) ≡ none)
get_disks_info-IsNamed_example = get_disks_info-IsNamed (λ k. ata_disk) entries

get_info_from_disk-is_empty_example :
    (((get_info_from_disk ata_disk).0.is_empty ≡ false) ↔ IsIdentified ata_disk)
    × ((get_info_from_disk ata_disk).0.is_empty ≡ true → (get_info_from_disk ata_disk).0 ≡ blank)
get_info_from_disk-is_empty_example = get_info_from_disk-is_empty ata_disk

get_info_from_disk-left_open_example :
    ((get_info_from_disk ata_disk).1 ≡ left_open) ↔ (IsIdentified ata_disk × (true ≡ true))
get_info_from_disk-left_open_example = get_info_from_disk-left_open ata_disk

ata_disk-HasSize : HasSize ata_disk 79 4095
ata_disk-HasSize = record { blocks_given = refl; sector_given = refl; bytes_given = inl refl }

get_info_from_disk-size_example :
    ((get_info_from_disk ata_disk).0.size ≡ 80 * 512)
    ↔ (IsIdentified ata_disk × (true ≡ true) × IsCounted ata_disk 4095)
get_info_from_disk-size_example =
    get_info_from_disk-size ata_disk 79 4095 ata_disk-HasSize (omega arith)

-- With sectors of 4096 bytes the size is eight times too large.
too_large : (get_info_from_disk ata_disk).0.size ≡ 8 * (80 * 512)
unfolding get_info_from_disk
too_large = refl

unsigned_char_to_string-lacks_space_example :
    (lacks_space (unsigned_char_to_string (text "WD 1")) ≡ true)
    × (lacks_space (text "WD 1") ≡ true → unsigned_char_to_string (text "WD 1") ≡ text "WD 1")
    × (unsigned_char_to_string (text "WD 1" ++ text " x")
        ≡ unsigned_char_to_string (text "WD 1") ++ unsigned_char_to_string (text " x"))
unsigned_char_to_string-lacks_space_example =
    unsigned_char_to_string-lacks_space (text "WD 1") (text " x")

nvme_info-layout_example :
    let i = nvme_info buffer in
    (take 4 buffer ++ (i.serial_number ++ (i.product ++ (i.firmware ++ drop 72 buffer))) ≡ buffer)
    × (length i.serial_number ≡ 20)
    × (length i.product ≡ 40)
    × (length i.firmware ≡ 8)
nvme_info-layout_example = nvme_info-layout buffer buffer-length

string_to_int-to_string_example : string_to_int (to_string (pos 951)) ≡ done (pos 951)
string_to_int-to_string_example = string_to_int-to_string 951 (omega arith)
