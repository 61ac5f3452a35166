-- ===== src/Disk.antt =====
-- hard_disk.h and hard_disk.cpp. What the kernel answers is an argument: the entries of /dev, and
-- for each disk the results of `open` and of the `ioctl` calls that getInfoFromDisk makes.
pub mod Names
pub mod Info
pub mod Set
pub mod Map
pub mod Laws
use storing_devices_logs_tfm.Base.{ℕ, Bool, true, [], ◌∷◌, Bytes, ◌==◌, if◌then◌else◌}

pub record HardDiskInfo : Type 0 where
  pub is_empty : Bool
  pub disk_type : Bytes
  pub product : Bytes
  pub serial_number : Bytes
  pub version : Bytes
  pub firmware : Bytes
  pub size : ℕ

-- Two fields are left as the default constructor made them, which is empty.
abbrev pub initialize_hard_disk_info_structure : HardDiskInfo → HardDiskInfo
initialize_hard_disk_info_structure d = record d {
  is_empty = true;
  product = [];
  serial_number = [];
  version = [];
  size = 0;
}

-- The array without its spaces, the ones inside the text included.
unfoldable pub unsigned_char_to_string : Bytes → Bytes
unsigned_char_to_string [] = []
unsigned_char_to_string (c ∷ s) =
    if c == b' ' then unsigned_char_to_string s else c ∷ unsigned_char_to_string s
