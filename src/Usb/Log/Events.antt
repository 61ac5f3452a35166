-- ===== src/Usb/Log/Events.antt =====
-- What a line of the log says, read apart from the two maps, and the machine that the lines drive:
-- a port and a device are looked up in functions, with no order and no iterator.
pub mod Shown
pub mod Refine
pub mod Simulate
pub mod Whole
pub mod Commute
pub mod Order
pub mod Pending
pub mod Listed
pub mod Reported
pub mod Sources
pub mod Saved
pub mod Origins
pub mod Tells
pub mod Described
use mathlib.Core.Option
use storing_devices_logs_tfm.Base.{
  Bool, true, false, not, ◌&&◌, ℤ, List, [], ◌∷◌, Option, none, some, if◌then◌else◌, Bytes, equal,
  Outcome, done, ◌>>=◌,
}
use storing_devices_logs_tfm.Regex.{regex_search, is_found}
use storing_devices_logs_tfm.Usb.{UsbInterface, UsbInfo, initialized}
use storing_devices_logs_tfm.Usb.Text.{
  storage_regex, usb_regex, new_usb_regex, disconnection_found_regex,
  id_vendor_and_id_product_regex, id_vendor_regex, id_product_regex, serial_number_regex,
  product_name_regex, manufacturer_regex, get_interface_id_from_regex,
}
use storing_devices_logs_tfm.Usb.Checks.{number_of, field_of, date_of, interface_of}
use storing_devices_logs_tfm.Usb.Storage.{stored}
use storing_devices_logs_tfm.Usb.Disconnection.{with_session, first_session}

-- What a line tells about the device of its port.
pub data Note : Type 0 where
  numbers : ℤ → ℤ → Note
  serial : Bytes → Note
  product : Bytes → Note
  maker : Bytes → Note

pub record UsbLine : Type 0 where
  pub port : Bytes
  pub note : Option Note
  pub new_port : Option Bytes
  pub leaves : Bool
  pub time : Bytes

pub data Event : Type 0 where
  stores : Bytes → Event
  says : UsbLine → Event
  nothing : Event

unfoldable pub read_note : Bytes → Outcome (Option Note)
read_note line =
    if is_found (regex_search id_vendor_and_id_product_regex line)
    then (number_of id_vendor_regex line >>= λ v.
        number_of id_product_regex line >>= λ p. done (some (numbers v p)))
    else if is_found (regex_search serial_number_regex line)
    then (field_of serial_number_regex line >>= λ s. done (some (serial s)))
    else if is_found (regex_search product_name_regex line)
    then (field_of product_name_regex line >>= λ s. done (some (product s)))
    else if is_found (regex_search manufacturer_regex line)
    then (field_of manufacturer_regex line >>= λ s. done (some (maker s)))
    else done none

-- The port that a line says a new device is on.
abbrev pub new_port_of : Bytes → Option Bytes
new_port_of line = Option.map get_interface_id_from_regex (regex_search new_usb_regex line)

abbrev pub usb_line : Bytes → Option Note → UsbLine
usb_line line n = record {
  port = interface_of line;
  note = n;
  new_port = new_port_of line;
  leaves = is_found (regex_search disconnection_found_regex line);
  time = date_of line;
}

unfoldable pub read_event : Bytes → Outcome Event
unfolding read_note
read_event line = elim (regex_search storage_regex line) [
  | some found ↦ done (stores (get_interface_id_from_regex found))
  | none ↦
      if is_found (regex_search usb_regex line)
      then (read_note line >>= λ n. done (says (usb_line line n)))
      else done nothing
]

unfoldable pub read_events : List Bytes → Outcome (List Event)
read_events [] = done []
read_events (line ∷ lines) = do e ← read_event line; es ← read_events lines; done (e ∷ es)

abbrev pub Table : Type 0 → Type 0
Table V = Bytes → Option V

abbrev pub write : {V : Type 0} → Bytes → V → Table V → Table V
write k v f = λ j. if equal k j then some v else f j

-- A write to a key that is there.
abbrev pub change : {V : Type 0} → Bytes → (V → V) → Table V → Table V
change k g f = elim (f k) [ none ↦ f | some v ↦ write k (g v) f ]

abbrev pub noted : Option Note → UsbInterface → UsbInterface
noted none e = e
noted (some (numbers v p)) e = record e { id_vendor = v; id_product = p }
noted (some (serial s)) e = record e { serial_number = s }
noted (some (product s)) e = record e { product_name = s }
noted (some (maker s)) e = record e { manufacturer = s }

-- A new device takes a port that is unknown or empty.
abbrev pub is_free : Option UsbInterface → Bool
is_free none = true
is_free (some e) = e.is_empty

abbrev pub accepts : Option Bytes → Table UsbInterface → Bool
accepts none p = false
accepts (some k) p = is_free (p k)

abbrev pub plugged : Bytes → Option UsbInterface → UsbInterface
plugged time none = record initialized { is_empty = false; connection_time = time }
plugged time (some e) = record e { is_empty = false; connection_time = time }

abbrev pub attach : Bytes → Option Bytes → Table UsbInterface → Table UsbInterface
attach time none p = p
attach time (some k) p = write k (plugged time (p k)) p

-- The storage device on a port, if there is one.
abbrev pub storing : Option UsbInterface → Option UsbInterface
storing none = none
storing (some e) = if not e.is_empty && e.is_storage_device then some e else none

abbrev pub session : Bytes → UsbInterface → Option UsbInfo → UsbInfo
session time e none = first_session time e
session time e (some u) = with_session time e u

pub record Machine : Type 0 where
  pub ports : Table UsbInterface
  pub devices : Table UsbInfo

-- The storage device that leaves, seen behind the note of the line.
abbrev pub leaving : UsbLine → Table UsbInterface → Option UsbInterface
leaving u p = if accepts u.new_port p then none else if u.leaves then storing (p u.port) else none

abbrev pub vacate : Bytes → Option UsbInterface → Table UsbInterface → Table UsbInterface
vacate k none p = p
vacate k (some e) p = write k initialized p

abbrev pub register : Bytes → Option UsbInterface → Table UsbInfo → Table UsbInfo
register time none d = d
register time (some e) d = write e.serial_number (session time e (d e.serial_number)) d

abbrev pub leave_port : UsbLine → Table UsbInterface → Table UsbInterface
leave_port u p = vacate u.port (leaving u p) p

abbrev pub leave_devices : UsbLine → Table UsbInterface → Table UsbInfo → Table UsbInfo
leave_devices u p d = register u.time (leaving u p) d

abbrev pub ports_after : Event → Table UsbInterface → Table UsbInterface
ports_after nothing p = p
ports_after (stores id) p = change id stored p
ports_after (says u) p =
    let q = change u.port (noted u.note) p in
    if accepts u.new_port q then attach u.time u.new_port q else leave_port u q

abbrev pub devices_after : Event → Table UsbInterface → Table UsbInfo → Table UsbInfo
devices_after nothing p d = d
devices_after (stores id) p d = d
devices_after (says u) p d = leave_devices u (change u.port (noted u.note) p) d

-- The machine on one event.
abbrev pub step : Event → Machine → Machine
step e m = record { ports = ports_after e m.ports; devices = devices_after e m.ports m.devices }

abbrev pub run : List Event → Machine → Machine
run [] m = m
run (e ∷ es) m = run es (step e m)
