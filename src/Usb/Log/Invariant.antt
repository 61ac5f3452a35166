-- ===== src/Usb/Log/Invariant.antt =====
-- The invariant of the two maps of getUSBsInfo, under the checks of a line.
use storing_devices_logs_tfm.Base.{
  true, false, Bool, ◌≡◌, ◌≢◌, refl, ◌∙◌, arith, [], ◌∷◌, some, Bytes, Ends, Ends-done, Outcome,
  if◌then◌else◌, inl, inr, Option-cases, Bool-cases, All, length, length-append, subst,
}
use storing_devices_logs_tfm.Regex.{Regex, regex_search}
use storing_devices_logs_tfm.StdMap.{find, insert, IsSorted}
use storing_devices_logs_tfm.StdMap.Order.{insert-IsSorted}
use storing_devices_logs_tfm.StdMap.Replace.{set, set-IsSorted}
use storing_devices_logs_tfm.StdMap.Elements.{All-find, All-insert, All-set}
use storing_devices_logs_tfm.Usb.{UsbInterface, UsbInfo, Interfaces, Usbs, initialized}
use storing_devices_logs_tfm.Usb.Text.{
  storage_regex, new_usb_regex, disconnection_found_regex, get_interface_id_from_regex,
}
use storing_devices_logs_tfm.Usb.Checks.{
  check_if_storage_device, check_if_new_device_connected, check_if_device_disconnected, id_in,
  interface_of, date_of,
}
use storing_devices_logs_tfm.Usb.Safety.{Touches, Touches-refl, set-Touches, insert-Touches}
use storing_devices_logs_tfm.Usb.Storage.{
  stored, connected, storage_absent, storage_unknown, storage_known, connection_absent,
  connection_first, connection_again, connection_busy,
}
use storing_devices_logs_tfm.Usb.Disconnection.{
  with_session, first_session, disconnection_absent, disconnection_unknown, disconnection_empty,
  disconnection_other, disconnection_first, disconnection_again,
}
use storing_devices_logs_tfm.Usb.Log.{State}

-- A device stands under its serial number, with one disconnection for each connection.
abbrev pub Recorded : Bytes × UsbInfo → Type 0
Recorded (k, u) = (u.serial_number ≡ k) × (length u.connection_times ≡ length u.disconnection_times)

pub record AreRecorded (usbs : Usbs) : Type 0 where
  pub sorted : IsSorted usbs
  pub recorded : All Recorded usbs

pub record IsWellFormed (s : State) : Type 0 where
  pub interfaces_sorted : IsSorted s.interfaces
  pub devices : AreRecorded s.usbs

-- The interface that a search found is the one that the line names.
Touches-named :
    (r : Regex) (line : Bytes) {found : Bytes} {before after : Interfaces}
    → regex_search r line ≡ some found
    → Touches (get_interface_id_from_regex found) before after
    → Touches (id_in r line) before after
Touches-named r line {before = before} {after = after} h t =
    subst (λ i. Touches i before after) (ground arith) t

module _ (line : Bytes) (m : Interfaces) (sorted : IsSorted m) (Q : Type 0) where
  abbrev pub Stores : Bool × Interfaces → Type 0
  Stores r = Touches (id_in storage_regex line) m r.1

  pub storage-Ends : Ends Stores Q (check_if_storage_device line m)
  storage-Ends = elim (Option-cases (regex_search storage_regex line)) [
    | inl h ↦ Ends-done Stores Q (storage_absent line m h) (Touches-refl _ m sorted)
    | inr (found, h) ↦ elim (Option-cases (find (get_interface_id_from_regex found) m)) [
      | inl n ↦ Ends-done Stores Q (storage_unknown line m found h n) (Touches-refl _ m sorted)
      | inr (e, n) ↦
          Ends-done Stores Q (storage_known line m found e sorted h n)
            (Touches-named storage_regex line h (set-Touches _ (stored e) e m sorted n))
    ]
  ]

  abbrev pub Connects : Bool × Interfaces → Type 0
  Connects r = Touches (id_in new_usb_regex line) m r.1

  pub connection-Ends : Ends Connects Q (check_if_new_device_connected line m)
  connection-Ends = elim (Option-cases (regex_search new_usb_regex line)) [
    | inl h ↦ Ends-done Connects Q (connection_absent line m h) (Touches-refl _ m sorted)
    | inr (found, h) ↦ elim (Option-cases (find (get_interface_id_from_regex found) m)) [
      | inl n ↦ Ends-done Connects Q (connection_first line m found h n) (
          Touches-named new_usb_regex line h
            (insert-Touches _ (connected line initialized) m sorted))
      | inr (e, n) ↦ elim (Bool-cases e.is_empty) [
        | inl t ↦
            Ends-done Connects Q (connection_again line m found e sorted h n t)
              (Touches-named new_usb_regex line h (set-Touches _ (connected line e) e m sorted n))
        | inr t ↦
            Ends-done Connects Q (connection_busy line m found e h n t) (Touches-refl _ m sorted)
      ]
    ]
  ]

  module _ (usbs : Usbs) (d : AreRecorded usbs) where
    abbrev pub Leaves : Bool × Interfaces × Usbs → Type 0
    Leaves r = Touches (interface_of line) m r.1 × AreRecorded r.2

    first-AreRecorded :
        (e : UsbInterface) (time : Bytes)
        → AreRecorded (insert e.serial_number (first_session time e) usbs)
    first-AreRecorded e time = record {
      sorted = insert-IsSorted _ _ usbs d.sorted;
      recorded = All-insert Recorded _ _ usbs (refl, refl) d.recorded;
    }

    again-AreRecorded :
        (e : UsbInterface) (u : UsbInfo) (time : Bytes)
        → find e.serial_number usbs ≡ some u
        → AreRecorded (set e.serial_number (with_session time e u) usbs)
    again-AreRecorded e u time f =
        let (same, paired) = All-find Recorded _ u usbs d.recorded f in
        record {
          sorted = set-IsSorted _ _ usbs d.sorted;
          recorded =
              All-set Recorded _ _ usbs
                (
                  same,
                  omega (
                    arith,
                    length-append u.connection_times (e.connection_time ∷ []),
                    length-append u.disconnection_times (time ∷ []),
                  ),
                )
                d.recorded;
        }

    leaving-Ends :
        {found : Bytes} (e : UsbInterface)
        → regex_search disconnection_found_regex line ≡ some found
        → find (interface_of line) m ≡ some e
        → e.is_empty ≡ false
        → e.is_storage_device ≡ true
        → Ends Leaves Q (check_if_device_disconnected line m usbs)
    leaving-Ends e h n used stores = elim (Option-cases (find e.serial_number usbs)) [
      | inl k ↦
          Ends-done Leaves Q (disconnection_first line m usbs h e n sorted used stores k)
            (set-Touches _ initialized e m sorted n, first-AreRecorded e (date_of line))
      | inr (u, k) ↦
          Ends-done Leaves Q (disconnection_again line m usbs h e n sorted used stores u d.sorted k)
            (set-Touches _ initialized e m sorted n, again-AreRecorded e u (date_of line) k)
    ]

    pub disconnection-Ends : Ends Leaves Q (check_if_device_disconnected line m usbs)
    disconnection-Ends = elim (Option-cases (regex_search disconnection_found_regex line)) [
      | inl h ↦ Ends-done Leaves Q (disconnection_absent line m usbs h) same
      | inr (found, h) ↦ elim (Option-cases (find (interface_of line) m)) [
        | inl n ↦ Ends-done Leaves Q (disconnection_unknown line m usbs h n) same
        | inr (e, n) ↦ elim (Bool-cases e.is_empty) [
          | inl t ↦ Ends-done Leaves Q (disconnection_empty line m usbs h e n t) same
          | inr used ↦ elim (Bool-cases e.is_storage_device) [
            | inl stores ↦ leaving-Ends e h n used stores
            | inr t ↦ Ends-done Leaves Q (disconnection_other line m usbs h e n t) same
          ]
        ]
      ]
    ]
      where
        same : Touches (interface_of line) m m × AreRecorded usbs
        same = (Touches-refl _ m sorted, d)

-- The interfaces that a line can change are those that its expressions name.
pub record Moves (line : Bytes) (s t : State) : Type 0 where
  pub well_formed : IsWellFormed t
  pub others :
      (k : Bytes)
      → k ≢ id_in storage_regex line
      → k ≢ id_in new_usb_regex line
      → k ≢ interface_of line
      → find k t.interfaces ≡ find k s.interfaces

pub if_Ends :
    (R : State → Type 0) (Q : Type 0) (b : Bool) (x y : Outcome State)
    → Ends R Q x
    → Ends R Q y
    → Ends R Q (if b then x else y)
if_Ends R Q true x y h k = h
if_Ends R Q false x y h k = k

pub Moves-trans : (line : Bytes) {s t u : State} → Moves line s t → Moves line t u → Moves line s u
Moves-trans line a b = record {
  well_formed = b.well_formed;
  others = λ k x y z. b.others k x y z ∙ a.others k x y z;
}
