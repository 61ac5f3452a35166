-- ===== src/Usb/Log/Run.antt =====
-- getUSBsInfo as a whole.
use storing_devices_logs_tfm.Base.{
  true, false, Bool, ◌≡◌, ◌≤◌, refl, sym, ap, ◌∙◌, ◌>>=◌, >>=-ap, >>=-assoc, ◌++◌, arith, List, [],
  ◌∷◌, Option, Bytes, done, fault, invalid_iterator, if◌then◌else◌, inl, inr, Option-cases, All,
  All-map, Ends, Ends-bind, Ends-weaken, length, length-append,
}
use storing_devices_logs_tfm.StdMap.{find, IsSorted}
use storing_devices_logs_tfm.StdMap.Elements.{All-find, All-insert, All-set}
use storing_devices_logs_tfm.Usb.{UsbInterface, UsbInfo, Interfaces, Usbs}
use storing_devices_logs_tfm.Usb.Information.{IsReadable}
use storing_devices_logs_tfm.Usb.Log.{
  State, start, process_line, process_lines, lines_of, get_usbs_info,
}
use storing_devices_logs_tfm.Usb.Log.Invariant.{IsWellFormed, AreRecorded, Recorded, Moves}
use storing_devices_logs_tfm.Usb.Log.Step.{process_line-Ends}
use storing_devices_logs_tfm.Usb.Log.Save.{reusing, other, completed, fresh}
use storing_devices_logs_tfm.Usb.Log.Save.Reference.{
  record_interface, record_all, record_interface-IsSorted,
}
use storing_devices_logs_tfm.Usb.Log.Save.Loop.{IsIdle, save-reusing, save-other}

pub start-IsWellFormed : IsWellFormed start
start-IsWellFormed = record {
  interfaces_sorted = tt;
  devices = record { sorted = tt; recorded = tt };
}

-- All the lines of a log are processed, or one of them announces a device without its numbers.
pub process_lines-Ends :
    (lines : List Bytes) (s : State)
    → IsWellFormed s
    → Ends IsWellFormed (¬ All IsReadable lines) (process_lines lines s)
unfolding process_lines
process_lines-Ends [] s w = w
process_lines-Ends (line ∷ lines) s w =
    Ends-bind (Moves line s) IsWellFormed Q (process_line line s) (process_lines lines)
      (Ends-weaken (Moves line s) (¬ IsReadable line) Q _ (λ n r. n r.0)
        (process_line-Ends line s w))
      (λ t moved.
        Ends-weaken IsWellFormed (¬ All IsReadable lines) Q _ (λ n r. n r.1)
          (process_lines-Ends lines t moved.well_formed))
  where
    Q : Type 0
    Q = ¬ All IsReadable (line ∷ lines)

pub lines-append :
    (a b : List Bytes) (s : State)
    → process_lines (a ++ b) s ≡ process_lines a s >>= process_lines b
unfolding process_lines
lines-append [] b s = refl
lines-append (line ∷ a) b s =
    >>=-ap (process_line line s) (λ r. lines-append a b r)
    ∙ sym (>>=-assoc (process_line line s) (process_lines a) (process_lines b))

pub lines_then :
    (a b : List Bytes) (s t r : State)
    → process_lines a s ≡ done t
    → process_lines b t ≡ done r
    → process_lines (a ++ b) s ≡ done r
lines_then a b s t r h k = lines-append a b s ∙ ap (λ o. o >>= process_lines b) h ∙ k

-- A device stands under its serial number, and no disconnection is without its connection.
abbrev pub Listed : Bytes × UsbInfo → Type 0
Listed (k, u) = (u.serial_number ≡ k) × (length u.disconnection_times ≤ length u.connection_times)

pub record AreListed (usbs : Usbs) : Type 0 where
  pub sorted : IsSorted usbs
  pub listed : All Listed usbs

completed-Listed :
    (k : Bytes) (e : UsbInterface) (u : UsbInfo)
    → e.serial_number ≡ k
    → Listed (k, u)
    → Listed (k, completed e u)
unfolding completed
completed-Listed k e u same h = (
  ground (arith, h.0, same),
  omega (arith, h.1, length-append u.connection_times (e.connection_time ∷ [])),
)

fresh-Listed : (e : UsbInterface) → Listed (e.serial_number, fresh e)
unfolding fresh
fresh-Listed e = (refl, omega arith)

record_interface-AreListed :
    (e : UsbInterface) (usbs : Usbs) → AreListed usbs → AreListed (record_interface e usbs)
record_interface-AreListed e usbs d = record {
  sorted = record_interface-IsSorted e usbs d.sorted;
  listed = elim (Option-cases (find e.serial_number usbs)) [
    | inl n ↦ ground (
      arith,
      n,
      d.listed,
      All-insert Listed e.serial_number (fresh e) usbs (fresh-Listed e) d.listed,
    )
    | inr (u, n) ↦ ground (
      arith,
      n,
      All-set Listed e.serial_number (completed e u) usbs
          (completed-Listed e.serial_number e u refl (All-find Listed _ u usbs d.listed n))
          d.listed,
    )
  ];
}

record_all-AreListed :
    (m : Interfaces) (usbs : Usbs) → AreListed usbs → AreListed (record_all m usbs)
record_all-AreListed [] usbs d = d
record_all-AreListed ((k, e) ∷ m) usbs d = record_all-AreListed m _ (chosen e.is_empty)
  where
    chosen : (b : Bool) → AreListed (if b then usbs else record_interface e usbs)
    chosen true = d
    chosen false = record_interface-AreListed e usbs d

AreRecorded-AreListed : (usbs : Usbs) → AreRecorded usbs → AreListed usbs
AreRecorded-AreListed usbs d = record {
  sorted = d.sorted;
  listed = All-map Recorded Listed usbs (λ (k, u) h. (h.0, omega arith)) d.recorded;
}

-- With an allocator that hands the freed node back, getUSBsInfo on any log returns devices that
-- stand in the order of their serial numbers, each under its own, with at least as many
-- connections as disconnections; or the log has a line that announces a device without its
-- numbers, and then the only fault is the read of an unwritten variable.
pub get_usbs_info-Ends :
    (syslog : Option Bytes)
    → Ends AreListed (¬ All IsReadable (lines_of syslog)) (get_usbs_info reusing syslog)
unfolding get_usbs_info
get_usbs_info-Ends syslog =
    Ends-bind IsWellFormed AreListed Q (process_lines (lines_of syslog) start) _
      (process_lines-Ends (lines_of syslog) start start-IsWellFormed)
      λ s w.
        rw (save-reusing s.interfaces s.usbs w.interfaces_sorted w.devices.sorted)
          (record_all-AreListed s.interfaces s.usbs (AreRecorded-AreListed s.usbs w.devices))
  where
    Q : Type 0
    Q = ¬ All IsReadable (lines_of syslog)

-- If the lines of the log leave an interface in use, getUSBsInfo with an allocator that does not
-- hand the freed node back advances an iterator to an erased element.
pub get_usbs_info_dangling :
    (syslog : Option Bytes) (s : State)
    → process_lines (lines_of syslog) start ≡ done s
    → ¬ IsIdle s.interfaces
    → get_usbs_info other syslog ≡ fault invalid_iterator
unfolding get_usbs_info
get_usbs_info_dangling syslog s r busy =
    let w : IsWellFormed s =
      rw r at (process_lines-Ends (lines_of syslog) start start-IsWellFormed) in
    rw r (elim (save-other s.interfaces s.usbs w.interfaces_sorted w.devices.sorted) [
      | inl (idle, k) ↦ absurd (busy idle)
      | inr (b, k) ↦ rw k
    ])
