-- ===== src/Serial.antt =====
-- from disk/example.cpp and from disk/example_2.cpp: the serial number of a disk, by two calls. What
-- the kernel answers is an argument.
pub mod Trim
use storing_devices_logs_tfm.Base.{
  ℕ, suc, Bool, true, false, ◌==◌, if◌then◌else◌, List, [], ◌∷◌, Option, none, some, Bytes, take,
  drop,
}
use storing_devices_logs_tfm.Usb.Text.{behind}

-- `find_last_not_of`, with `none` for `npos`.
unfoldable pub last_not_of : ℕ → Bytes → Option ℕ
last_not_of c [] = none
last_not_of c (x ∷ s) = elim (last_not_of c s) [
  | some i ↦ some (suc i)
  | none ↦ if x == c then none else some 0
]

-- `serial_number.erase(serial_number.find_last_not_of(' ') + 1)`.
unfoldable pub trim : Bytes → Bytes
unfolding last_not_of behind
trim s = take (behind 1 (last_not_of b' ' s)) s

-- The answers: `hdio_get_identity` is the 20 bytes of the serial number, and the drive command of
-- the second program is answered by whether it succeeded and by the 512 bytes that `read` gives.
pub record Drive : Type 0 where
  pub opens : Bool
  pub hdio_get_identity : Option Bytes
  pub hdio_drive_cmd : Bool
  pub id_data : Option Bytes

unfoldable pub get_disk_serial : Drive → Bytes
unfolding trim
get_disk_serial d =
    if d.opens then elim d.hdio_get_identity [ none ↦ [] | some serial_no ↦ trim serial_no ] else []

unfoldable pub get_disk_serial_by_command : Drive → Bytes
unfolding trim
get_disk_serial_by_command d =
    if d.opens
    then if d.hdio_drive_cmd
      then elim d.id_data [ none ↦ [] | some bytes ↦ trim (take 20 (drop 20 bytes)) ]
      else []
    else []
