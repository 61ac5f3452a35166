-- ===== src/SdDevice.antt =====
-- sd-device/example.cpp: the disks among the block devices of sd-device, with their sizes. The
-- library is an argument.
pub mod Sizes
use storing_devices_logs_tfm.Base.{
  ℕ, ◌-◌, ◌%◌, ◌^◌, ◌==◌, ltb, if◌then◌else◌, Bool, true, false, List, [], ◌∷◌, ◌++◌, Option, none,
  some, Bytes, text, equal,
}
use storing_devices_logs_tfm.Usb.Text.{digits_value, skip_spaces}
use storing_devices_logs_tfm.Decimal.{natural}
use storing_devices_logs_tfm.Handles.{Use, acquire, access, release}
use storing_devices_logs_tfm.Libudev.{Finished}

-- A call that gives a negative result is `none`.
pub record SdDevice : Type 0 where
  pub get_devtype : Option Bytes
  pub get_sysattr_value : Bytes → Option Bytes
  pub get_sysname : Bytes

pub record SdLibrary : Type 0 where
  pub list_new : Option ℕ
  pub list_by_subsystem : Bytes → Option (List SdDevice)

-- Out of its range `strtoull` gives the largest number; a minus sign negates behind that.
magnitude : ℕ → ℕ
magnitude n = if ltb n (2 ^ 64) then n else 2 ^ 64 - 1

negated : ℕ → ℕ
negated n = if ltb n (2 ^ 64) then (2 ^ 64 - n) % 2 ^ 64 else 2 ^ 64 - 1

signed_digits : Bytes → ℕ
unfolding magnitude negated
signed_digits [] = 0
signed_digits (x ∷ s) =
    if x == b'-'
    then negated (digits_value 0 s)
    else magnitude (digits_value 0 (if x == b'+' then s else x ∷ s))

-- `strtoull(size_str, nullptr, 10)`
unfoldable pub strtoull : Bytes → ℕ
unfolding skip_spaces signed_digits digits_value
strtoull size_str = signed_digits (skip_spaces size_str)

unfoldable pub size_lines : Bytes → Option Bytes → Bytes
unfolding strtoull
size_lines sysname none = []
size_lines sysname (some size_str) =
    text "Device: "
    ++ (sysname
        ++ (b'\n'
            ∷ (text "Size: " ++ (natural (strtoull size_str) ++ (text " bytes" ++ b'\n' ∷ [])))))

-- The body of the loop: a device without a type, or of another type than `disk`, is passed over.
unfoldable pub device_output : SdDevice → Bytes
unfolding size_lines
device_output dev = elim dev.get_devtype [
  | none ↦ []
  | some devtype ↦
      if equal devtype (text "disk")
      then size_lines dev.get_sysname (dev.get_sysattr_value (text "size"))
      else []
]

unfoldable pub devices_output : List SdDevice → Bytes
unfolding device_output
devices_output [] = []
devices_output (dev ∷ list) = device_output dev ++ devices_output list

-- What is read of the list, which has the devices and their strings: the size and the name,
unfoldable pub size_uses : ℕ → Option Bytes → List Use
size_uses list none = []
size_uses list (some size_str) = access list ∷ access list ∷ []

-- the type, and the size of a disk,
unfoldable pub type_uses : ℕ → SdDevice → Option Bytes → List Use
unfolding size_uses
type_uses list dev none = []
type_uses list dev (some devtype) =
    access list
    ∷ (if equal devtype (text "disk")
        then access list ∷ size_uses list (dev.get_sysattr_value (text "size"))
        else [])

-- and each device and its type, up to the end of the list.
unfoldable pub loop_uses : ℕ → List SdDevice → List Use
unfolding type_uses
loop_uses list [] = access list ∷ []
loop_uses list (dev ∷ devices) =
    access list ∷ access list ∷ (type_uses list dev dev.get_devtype ++ loop_uses list devices)

unfoldable pub list_disks : SdLibrary → Finished
unfolding devices_output loop_uses
list_disks lib = elim lib.list_new [
  | none ↦ record { status = 1; printed = []; uses = [] }
  | some list ↦ elim (lib.list_by_subsystem (text "block")) [
    | none ↦ record {
      status = 1;
      printed = [];
      uses = acquire list ∷ access list ∷ release list ∷ [];
    }
    | some devices ↦ record {
      status = 0;
      printed = devices_output devices;
      uses = acquire list ∷ access list ∷ (loop_uses list devices ++ release list ∷ []);
    }
  ]
]
