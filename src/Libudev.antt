-- ===== src/Libudev.antt =====
-- libudev/example.cpp: the block devices that libudev enumerates. The library is an argument.
pub mod Release
use storing_devices_logs_tfm.Base.{ℕ, List, [], ◌∷◌, ◌++◌, Option, none, some, Bytes, text}
use storing_devices_logs_tfm.Handles.{Use, acquire, access, release}

-- A pointer that is not null is `some`. A property and a path are the bytes of a C string, and
-- `pointer_text` is what `<<` prints for a pointer.
pub record UdevLibrary : Type 0 where
  pub udev_new : Option ℕ
  pub udev_enumerate_new : Option ℕ
  pub scan_devices : Bytes → List Bytes
  pub device_new_from_syspath : Bytes → Option ℕ
  pub get_property_value : ℕ → Bytes → Option Bytes
  pub pointer_text : ℕ → Bytes

-- A run of a program: its status, its standard output and its uses of objects, in order.
pub record Finished : Type 0 where
  pub status : ℕ
  pub printed : Bytes
  pub uses : List Use

abbrev pub printed_line : Bytes → Bytes → Bytes
printed_line label value = label ++ (value ++ (b'\n' ∷ []))

unfoldable pub name_line : Option Bytes → Bytes
name_line none = []
name_line (some device_name) = printed_line (text "Device name: ") device_name

unfoldable pub serial_lines : UdevLibrary → Bytes → ℕ → Option Bytes → Bytes
serial_lines lib path device none = []
serial_lines lib path device (some serial) =
    printed_line (text "Path: ") path
    ++ (printed_line (text "Device: ") (lib.pointer_text device)
        ++ printed_line (text "Serial number: ") serial)

-- What one entry prints and uses; a device that is null is passed over with a message.
unfoldable pub entry_output : UdevLibrary → Bytes → Option ℕ → Bytes
unfolding name_line serial_lines
entry_output lib path none = []
entry_output lib path (some device) =
    name_line (lib.get_property_value device (text "DEVNAME"))
    ++ serial_lines lib path device (lib.get_property_value device (text "ID_SERIAL_SHORT"))

-- The strings of a device are read from it, and the path from the list of the enumeration.
unfoldable pub name_uses : ℕ → Option Bytes → List Use
name_uses device none = []
name_uses device (some device_name) = access device ∷ []

unfoldable pub serial_uses : ℕ → ℕ → Option Bytes → List Use
serial_uses enumerate device none = []
serial_uses enumerate device (some serial) = access enumerate ∷ access device ∷ []

-- The device of an entry: the two properties are asked for and printed, and it is released.
unfoldable pub device_uses : UdevLibrary → ℕ → ℕ → List Use
unfolding name_uses serial_uses
device_uses lib enumerate device =
    acquire device
    ∷ access device
    ∷ access device
    ∷ (name_uses device (lib.get_property_value device (text "DEVNAME"))
        ++ (serial_uses enumerate device (lib.get_property_value device (text "ID_SERIAL_SHORT"))
            ++ release device ∷ []))

unfoldable pub made_uses : UdevLibrary → ℕ → Option ℕ → List Use
unfolding device_uses
made_uses lib enumerate none = []
made_uses lib enumerate (some device) = device_uses lib enumerate device

-- The name of the entry is read from the list, the path by the library, which reads its context,
-- and behind the device the next entry from the list.
unfoldable pub entry_uses : UdevLibrary → ℕ → ℕ → Option ℕ → List Use
unfolding made_uses
entry_uses lib udev enumerate device =
    access enumerate
    ∷ access udev
    ∷ access enumerate
    ∷ (made_uses lib enumerate device ++ access enumerate ∷ [])

-- The loop over the entries.
unfoldable pub entries_output : UdevLibrary → List Bytes → Bytes
unfolding entry_output
entries_output lib [] = []
entries_output lib (path ∷ paths) =
    entry_output lib path (lib.device_new_from_syspath path) ++ entries_output lib paths

unfoldable pub entries_uses : UdevLibrary → ℕ → ℕ → List Bytes → List Use
unfolding entry_uses
entries_uses lib udev enumerate [] = []
entries_uses lib udev enumerate (path ∷ paths) =
    entry_uses lib udev enumerate (lib.device_new_from_syspath path)
    ++ entries_uses lib udev enumerate paths

-- The enumeration: a null one is refused by every call, and has no entries.
unfoldable pub enumerated : UdevLibrary → Option ℕ → List Bytes
enumerated lib none = []
enumerated lib (some enumerate) = lib.scan_devices (text "block")

-- Its creation, the match, the scan and the list, the loop, and its release.
unfoldable pub enumerate_uses : UdevLibrary → ℕ → Option ℕ → List Use
unfolding entries_uses enumerated
enumerate_uses lib udev none = access udev ∷ []
enumerate_uses lib udev (some enumerate) =
    access udev
    ∷ acquire enumerate
    ∷ access enumerate
    ∷ access enumerate
    ∷ access enumerate
    ∷ (entries_uses lib udev enumerate (enumerated lib (some enumerate)) ++ release enumerate ∷ [])

unfoldable pub list_devices : UdevLibrary → Finished
unfolding entries_output enumerated enumerate_uses
list_devices lib = elim lib.udev_new [
  | none ↦ record { status = 1; printed = []; uses = [] }
  | some udev ↦ record {
    status = 0;
    printed = entries_output lib (enumerated lib lib.udev_enumerate_new);
    uses = acquire udev ∷ (enumerate_uses lib udev lib.udev_enumerate_new ++ release udev ∷ []);
  }
]
