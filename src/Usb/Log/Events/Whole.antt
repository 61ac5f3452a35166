-- ===== src/Usb/Log/Events/Whole.antt =====
-- A whole log against the machine.
use storing_devices_logs_tfm.Base.{
  ◌≡◌, refl, subst, arith, List, [], ◌∷◌, Bytes, done, inl, inr, Option-cases, All, Finishes,
  Finishes-first, Ends-Finishes, Finishes-bind,
}
use storing_devices_logs_tfm.Regex.{regex_search}
use storing_devices_logs_tfm.Usb.{initialized}
use storing_devices_logs_tfm.Usb.Text.{storage_regex, usb_regex, get_interface_id_from_regex}
use storing_devices_logs_tfm.Usb.Information.{IsReadable, Anything, updated_by-Ends}
use storing_devices_logs_tfm.Usb.Log.{State}
use storing_devices_logs_tfm.Usb.Log.Events.{
  Event, stores, says, nothing, usb_line, read_note, read_event, read_events, Machine,
}
use storing_devices_logs_tfm.Usb.Log.Events.Refine.{updated_by-read_note}
use storing_devices_logs_tfm.Usb.Log.Events.Simulate.{Represents, Runs, process_lines-run}

read_note-Finishes : (line : Bytes) → IsReadable line → Finishes (read_note line)
read_note-Finishes line r =
    let ends = Ends-Finishes Anything (IsReadable line) _ (updated_by-Ends line initialized) r in
    Finishes-first (read_note line) _ (subst Finishes (updated_by-read_note line initialized) ends)

read_event-Finishes : (line : Bytes) → IsReadable line → Finishes (read_event line)
unfolding read_event
read_event-Finishes line r = elim (Option-cases (regex_search storage_regex line)) [
  | inr (found, h) ↦ (stores (get_interface_id_from_regex found), ground (arith, h))
  | inl h ↦ elim (Option-cases (regex_search usb_regex line)) [
    | inl k ↦ (nothing, ground (arith, h, k))
    | inr (found, k) ↦
        let (n, e) = read_note-Finishes line r in (says (usb_line line n), ground (arith, h, k, e))
  ]
]

read_events-Finishes : (lines : List Bytes) → All IsReadable lines → Finishes (read_events lines)
unfolding read_events
read_events-Finishes [] r = (_, refl)
read_events-Finishes (line ∷ lines) r =
    Finishes-bind (read_event line) _ (read_event-Finishes line r.0)
      (λ e. Finishes-bind (read_events lines) _ (read_events-Finishes lines r.1) (λ es. (_, refl)))

-- Lines of which each that announces a device has its numbers are read as events without the two
-- maps, and from maps that represent the tables of a machine the loop of getUSBsInfo processes the
-- lines without a fault and ends in maps that represent the tables of the machine after these
-- events.
pub process_lines-machine :
    (lines : List Bytes) (s : State) (m : Machine)
    → All IsReadable lines
    → Represents s m
    → (es : List Event) × (read_events lines ≡ done es) × Runs lines s m es
process_lines-machine lines s m r shown =
    let (es, e) = read_events-Finishes lines r in (es, e, process_lines-run lines es s m e shown)
