-- ===== src/Samples/Described.antt =====
-- The theorem on the lines between a connection and a disconnection, at the lines of the sample log.
use storing_devices_logs_tfm.Base.{
  ◌≡◌, ◌≢◌, refl, List, [], ◌∷◌, ◌++◌, some, Bytes, text, done, All, pos,
}
use storing_devices_logs_tfm.StdMap.{find}
use storing_devices_logs_tfm.Usb.{initialized}
use storing_devices_logs_tfm.Usb.Log.{State, start, process_lines}
use storing_devices_logs_tfm.Usb.Log.Events.{
  Event, stores, says, usb_line, read_event, read_events, numbers, serial, product, maker,
}
use storing_devices_logs_tfm.Usb.Log.Events.Tells.{Tells}
use storing_devices_logs_tfm.Usb.Log.Events.Described.{IsArrival, IsDeparture, described_session}
use storing_devices_logs_tfm.Samples.Log.{
  new_line, found_line, product_line, manufacturer_line, serial_line, storage_line, gone_line,
  traveler, runs,
}
use storing_devices_logs_tfm.Samples.Sessions.{port, start-IsWellFormed}

-- The storage line stands before the serial number here.
abbrev told_lines : List Bytes
told_lines = found_line ∷ product_line ∷ storage_line ∷ manufacturer_line ∷ serial_line ∷ []

abbrev told_events : List Event
told_events =
    says (usb_line found_line (some (numbers (pos 951) (pos 1666))))
    ∷ says (usb_line product_line (some (product (text "DataTraveler"))))
    ∷ stores port
    ∷ says (usb_line manufacturer_line (some (maker (text "Kingston"))))
    ∷ says (usb_line serial_line (some (serial (text "E0D5"))))
    ∷ []

told_lines-read : read_events told_lines ≡ done told_events
unfolding read_events read_event runs
told_lines-read = refl

told_events-Tells : All (Tells port) told_events
unfolding runs
told_events-Tells = (
  (refl, refl, refl),
  ((refl, refl, refl), (refl, ((refl, refl, refl), ((refl, refl, refl), tt)))),
)

arrival : IsArrival port new_line
unfolding read_event runs
arrival = record { read = refl; new = refl }

departure : IsDeparture port gone_line
unfolding read_event runs
departure = record { read = refl; from = refl; not_new = refl; gone = refl }

described_session_example :
    (r : State) × (process_lines (new_line ∷ (told_lines ++ gone_line ∷ [])) start ≡ done r)
    × (find (text "E0D5") r.usbs ≡ some traveler)
    × (find port r.interfaces ≡ some initialized)
    × ((k : Bytes) → k ≢ port → find k r.interfaces ≡ find k start.interfaces)
    × ((k : Bytes) → k ≢ text "E0D5" → find k r.usbs ≡ find k start.usbs)
unfolding runs
described_session_example =
    described_session port new_line gone_line told_lines told_events start arrival departure
      start-IsWellFormed told_lines-read told_events-Tells refl refl
