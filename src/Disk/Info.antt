-- ===== src/Disk/Info.antt =====
-- getInfoFromDisk and getDisksInfo.
use storing_devices_logs_tfm.Base.{
  ℕ, suc, ◌*◌, ◌%◌, ◌^◌, Bool, true, false, List, [], ◌∷◌, Option, none, some, ℤ, pos,
  if◌then◌else◌, Bytes, text, take, drop,
}
use storing_devices_logs_tfm.StdMap.{StdMap, empty, insert}
use storing_devices_logs_tfm.Disk.{
  HardDiskInfo, initialize_hard_disk_info_structure, unsigned_char_to_string,
}
use storing_devices_logs_tfm.Disk.Names.{get_disks_set}

-- The fields of hd_driveid that are read: 20, 8 and 40 bytes.
pub record HdDriveid : Type 0 where
  pub serial_no : Bytes
  pub fw_rev : Bytes
  pub model : Bytes

pub record NvmePassthruCmd : Type 0 where
  pub opcode : ℕ
  pub flags : ℕ
  pub rsvd1 : ℕ
  pub nsid : ℕ
  pub cdw2 : ℕ
  pub cdw3 : ℕ
  pub metadata : ℕ
  pub addr : ℕ
  pub metadata_len : ℕ
  pub data_len : ℕ
  pub cdw10 : ℕ
  pub cdw11 : ℕ
  pub cdw12 : ℕ
  pub cdw13 : ℕ
  pub cdw14 : ℕ
  pub cdw15 : ℕ
  pub timeout_ms : ℕ
  pub result : ℕ

abbrev pub initialize_nvme_passthru_cmd : NvmePassthruCmd
initialize_nvme_passthru_cmd = record {
  opcode = 0;
  flags = 0;
  rsvd1 = 0;
  nsid = 0;
  cdw2 = 0;
  cdw3 = 0;
  metadata = 0;
  addr = 0;
  metadata_len = 0;
  data_len = 0;
  cdw10 = 0;
  cdw11 = 0;
  cdw12 = 0;
  cdw13 = 0;
  cdw14 = 0;
  cdw15 = 0;
  timeout_ms = 0;
  result = 0;
}

-- One disk as the kernel answers for it. `ioctl` returns 0 with a value, or -1: `none`.
pub record Device : Type 0 where
  pub opens : Bool
  pub hdio_get_identity : Option HdDriveid
  -- NVME_IOCTL_ADMIN_CMD, with the 4096 bytes that it leaves in the buffer.
  pub nvme_ioctl_admin_cmd : NvmePassthruCmd → Option Bytes
  -- The first BLKGETSIZE call, whose value nothing reads.
  pub blkgetsize_probe : Bool
  pub blkgetsize64 : Option ℕ
  pub blksszget : Option ℤ
  pub blkgetsize : Option ℤ
  -- The address of `buf`.
  pub buf : ℕ

-- The descriptor when the function returns.
pub data Descriptor : Type 0 where
  not_opened closed left_open : Descriptor

-- The info that the declaration and initializeHardDiskInfoStructure make.
abbrev pub blank : HardDiskInfo
blank = record {
  is_empty = true;
  disk_type = [];
  product = [];
  serial_number = [];
  version = [];
  firmware = [];
  size = 0;
}

abbrev pub identify : Device → NvmePassthruCmd
identify d = record initialize_nvme_passthru_cmd {
  opcode = 6;
  nsid = 0;
  addr = d.buf;
  data_len = 4096;
  cdw10 = 1;
}

-- `std::string(&buf[from], &buf[from] + n)`.
abbrev pub slice : ℕ → ℕ → Bytes → Bytes
slice from n buffer = take n (drop from buffer)

abbrev pub nvme_info : Bytes → HardDiskInfo
nvme_info buffer = record (initialize_hard_disk_info_structure blank) {
  is_empty = false;
  serial_number = slice 4 20 buffer;
  product = slice 24 40 buffer;
  firmware = slice 64 8 buffer;
  disk_type = text "NVME";
}

abbrev pub ata_info : HdDriveid → HardDiskInfo
ata_info drive_info = record (initialize_hard_disk_info_structure blank) {
  is_empty = false;
  serial_number = unsigned_char_to_string drive_info.serial_no;
  product = unsigned_char_to_string drive_info.model;
  version = unsigned_char_to_string drive_info.fw_rev;
  disk_type = text "ATA";
}

-- The drive's identity, if one of the two calls gives it.
unfoldable pub identified : Device → Option HardDiskInfo
identified d = elim d.hdio_get_identity [
  | some drive_info ↦ some (ata_info drive_info)
  | none ↦ elim (d.nvme_ioctl_admin_cmd (identify d)) [
    | some buffer ↦ some (nvme_info buffer)
    | none ↦ none
  ]
]

abbrev or_zero : Option ℤ → ℤ
or_zero none = pos 0
or_zero (some n) = n

-- `size * sectsize` as `unsigned long long`, where both are positive.
unfoldable pub product_size : ℤ → ℤ → Option ℕ
product_size (pos (suc n)) (pos (suc m)) = some ((suc n * suc m) % 2 ^ 64)
product_size _ _ = none

-- The value that is stored in `size`, if one is.
unfoldable pub size_of : Device → Option ℕ
unfolding product_size
size_of d = elim d.blkgetsize64 [
  | some bytes ↦ some bytes
  | none ↦ product_size (or_zero d.blkgetsize) (or_zero d.blksszget)
]

abbrev pub sized : HardDiskInfo → Option ℕ → HardDiskInfo
sized i none = i
sized i (some n) = record i { size = n }

unfoldable pub get_info_from_disk : Device → HardDiskInfo × Descriptor
unfolding identified size_of
get_info_from_disk d =
    if d.opens
    then elim (identified d) [
      | none ↦ (initialize_hard_disk_info_structure blank, closed)
      | some i ↦ if d.blkgetsize_probe then (sized i (size_of d), left_open) else (i, closed)
    ]
    else (initialize_hard_disk_info_structure blank, not_opened)

-- The loop over the set.
unfoldable pub insert_all :
    (Bytes → Device) → List Bytes → StdMap HardDiskInfo → StdMap HardDiskInfo
insert_all devices [] disks = disks
insert_all devices (k ∷ ks) disks =
    insert_all devices ks (insert k (get_info_from_disk (devices k)).0 disks)

unfoldable pub get_disks_info : Option (List Bytes) → (Bytes → Device) → StdMap HardDiskInfo
get_disks_info entries devices = insert_all devices (get_disks_set entries) empty
