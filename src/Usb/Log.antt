-- ===== src/Usb/Log.antt =====
-- getUSBsInfo: the lines of /var/log/syslog in order, then the interfaces still in use.
pub mod Save
pub mod Lines
pub mod Disconnects
pub mod Invariant
pub mod Step
pub mod Run
pub mod Sessions
pub mod Returns
pub mod Announcements
pub mod Newlines
pub mod Events
use storing_devices_logs_tfm.Base.{
  ℕ, Bool, true, false, List, [], ◌∷◌, Option, none, some, ◌==◌, if◌then◌else◌, Bytes, Outcome,
  done, ◌>>=◌,
}
use storing_devices_logs_tfm.Regex.{regex_search, is_found}
use storing_devices_logs_tfm.StdMap.{empty}
use storing_devices_logs_tfm.Usb.{Interfaces, Usbs}
use storing_devices_logs_tfm.Usb.Text.{usb_regex}
use storing_devices_logs_tfm.Usb.Checks.{
  check_if_storage_device, check_if_new_device_connected, check_if_device_disconnected,
  check_if_information_about_device_found,
}
use Save.{Allocator, save_interfaces_info_in_usbs_map}

-- The two maps of getUSBsInfo.
pub record State : Type 0 where
  pub interfaces : Interfaces
  pub usbs : Usbs

abbrev pub start : State
start = record { interfaces = empty; usbs = empty }

abbrev state_of : Bool × Interfaces × Usbs → State
state_of (b, i, u) = record { interfaces = i; usbs = u }

-- The checks behind the first one, each made if the one before returned false.
connection_checks : Bytes → State → Outcome State
connection_checks line s = do
  (connected, interfaces) ← check_if_new_device_connected line s.interfaces
  if connected
      then done (record s { interfaces = interfaces })
      else (check_if_device_disconnected line interfaces s.usbs >>= λ r. done (state_of r))

usb_checks : Bytes → State → Outcome State
unfolding connection_checks
usb_checks line s = do
  (informed, interfaces) ← check_if_information_about_device_found line s.interfaces
  if informed
      then done (record s { interfaces = interfaces })
      else connection_checks line (record s { interfaces = interfaces })

-- The body of the loop.
unfoldable pub process_line : Bytes → State → Outcome State
unfolding usb_checks
process_line line s = do
  (stores, interfaces) ← check_if_storage_device line s.interfaces
  if stores
      then done (record s { interfaces = interfaces })
      else if is_found (regex_search usb_regex line)
      then usb_checks line (record s { interfaces = interfaces })
      else done (record s { interfaces = interfaces })

unfoldable pub process_lines : List Bytes → State → Outcome State
process_lines [] s = done s
process_lines (line ∷ lines) s = do s ← process_line line s; process_lines lines s

begin_line : ℕ → List Bytes → List Bytes
begin_line c [] = (c ∷ []) ∷ []
begin_line c (line ∷ lines) = (c ∷ line) ∷ lines

-- The lines that `getline` returns, one by one: the last one may lack its newline.
unfoldable pub get_lines : Bytes → List Bytes
unfolding begin_line
get_lines [] = []
get_lines (c ∷ s) = if c == b'\n' then [] ∷ get_lines s else begin_line c (get_lines s)

-- The file's bytes, `none` if it cannot be opened.
abbrev pub lines_of : Option Bytes → List Bytes
lines_of none = []
lines_of (some bytes) = get_lines bytes

unfoldable pub get_usbs_info : Allocator → Option Bytes → Outcome Usbs
unfolding process_lines
get_usbs_info allocator syslog = do
  s ← process_lines (lines_of syslog) start
  (interfaces, usbs) ← save_interfaces_info_in_usbs_map allocator s.interfaces s.usbs
  done usbs
