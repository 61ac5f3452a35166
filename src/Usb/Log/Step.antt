-- ===== src/Usb/Log/Step.antt =====
-- The invariant of the two maps under the body of the loop of getUSBsInfo.
use storing_devices_logs_tfm.Base.{Bytes, Ends, Ends-bind, Ends-map}
use storing_devices_logs_tfm.Regex.{regex_search, is_found}
use storing_devices_logs_tfm.Usb.{Interfaces, Usbs}
use storing_devices_logs_tfm.Usb.Text.{storage_regex, new_usb_regex, usb_regex}
use storing_devices_logs_tfm.Usb.Checks.{id_in, interface_of}
use storing_devices_logs_tfm.Usb.Safety.{Touches}
use storing_devices_logs_tfm.Usb.Information.{IsReadable}
use storing_devices_logs_tfm.Usb.Inform.{Informed, information-Ends}
use storing_devices_logs_tfm.Usb.Log.{State, connection_checks, usb_checks, process_line}
use storing_devices_logs_tfm.Usb.Log.Invariant.{
  Stores, Connects, Leaves, Moves, Moves-trans, AreRecorded, IsWellFormed, storage-Ends,
  connection-Ends, disconnection-Ends, if_Ends,
}

-- The map of interfaces after a check of one of the three names.
module _ (line : Bytes) (s : State) (w : IsWellFormed s) (m : Interfaces) where
  state_with : State
  state_with = record s { interfaces = m }

  by_storage : Touches (id_in storage_regex line) s.interfaces m → Moves line s state_with
  unfolding state_with
  by_storage t = record {
    well_formed = record { interfaces_sorted = t.sorted; devices = w.devices };
    others = λ k x y z. t.others k x;
  }

  by_connection : Touches (id_in new_usb_regex line) s.interfaces m → Moves line s state_with
  unfolding state_with
  by_connection t = record {
    well_formed = record { interfaces_sorted = t.sorted; devices = w.devices };
    others = λ k x y z. t.others k y;
  }

  by_usb :
      (usbs : Usbs)
      → Touches (interface_of line) s.interfaces m
      → AreRecorded usbs
      → Moves line s (record { interfaces = m; usbs = usbs })
  by_usb usbs t d = record {
    well_formed = record { interfaces_sorted = t.sorted; devices = d };
    others = λ k x y z. t.others k z;
  }

connection_checks-Ends :
    (line : Bytes) (s : State) (Q : Type 0)
    → IsWellFormed s
    → Ends (Moves line s) Q (connection_checks line s)
unfolding connection_checks state_with
connection_checks-Ends line s Q w =
    Ends-bind (Connects line s.interfaces w.interfaces_sorted Q) (Moves line s) Q _ _
      (connection-Ends line s.interfaces w.interfaces_sorted Q)
      λ (b, m) t.
        let a = by_connection line s w m t in
        if_Ends (Moves line s) Q b _ _ a (
          Ends-bind (Leaves line m t.sorted Q s.usbs w.devices) (Moves line s) Q _ _
            (disconnection-Ends line m t.sorted Q s.usbs w.devices)
            λ (b', m', u) l. Moves-trans line a (by_usb line _ a.well_formed m' u l.0 l.1))

usb_checks-Ends :
    (line : Bytes) (s : State)
    → IsWellFormed s
    → Ends (Moves line s) (¬ IsReadable line) (usb_checks line s)
unfolding usb_checks
usb_checks-Ends line s w =
    Ends-bind (Informed line s.interfaces) (Moves line s) (¬ IsReadable line) _ _
      (information-Ends line s.interfaces w.interfaces_sorted)
      λ (b, m) t.
        let a = by_usb line s w m s.usbs t.1 w.devices in
        if_Ends (Moves line s) (¬ IsReadable line) b _ _ a (
          Ends-map (Moves line _) (Moves line s) (¬ IsReadable line) _ (λ u c. Moves-trans line a c)
            (connection_checks-Ends line _ (¬ IsReadable line) a.well_formed))

-- A line that is processed in a well-formed state leaves it well formed and changes no interface
-- that the line does not name; or the line announces a device without a vendor or a product
-- number, and the only fault is the read of an unwritten variable.
pub process_line-Ends :
    (line : Bytes) (s : State)
    → IsWellFormed s
    → Ends (Moves line s) (¬ IsReadable line) (process_line line s)
unfolding process_line state_with
process_line-Ends line s w =
    Ends-bind (Stores line s.interfaces w.interfaces_sorted Q) (Moves line s) Q _ _
      (storage-Ends line s.interfaces w.interfaces_sorted Q)
      λ (b, m) t.
        let a = by_storage line s w m t in
        if_Ends (Moves line s) Q b _ _ a (
          if_Ends (Moves line s) Q (is_found (regex_search usb_regex line)) _ _
            (Ends-map (Moves line _) (Moves line s) Q _ (λ u c. Moves-trans line a c)
              (usb_checks-Ends line _ a.well_formed))
            a)
  where
    Q : Type 0
    Q = ¬ IsReadable line
