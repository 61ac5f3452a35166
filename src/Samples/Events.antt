-- ===== src/Samples/Events.antt =====
-- The theorems on the events of a log, at lines about two ports.
use storing_devices_logs_tfm.Base.{
  equal, equal_iff, ◌≡◌, ◌≢◌, refl, sym, ◌∙◌, [], ◌∷◌, ◌++◌, some, none, List, true, false, Bytes,
  text, done, All, inl, inr,
}
use storing_devices_logs_tfm.StdMap.{find}
use storing_devices_logs_tfm.Usb.{UsbInterface, UsbInfo, Usbs, initialized}
use storing_devices_logs_tfm.Usb.Storage.{stored, connected}
use storing_devices_logs_tfm.Usb.Information.{IsReadable}
use storing_devices_logs_tfm.Usb.Log.{State, start, process_lines, get_usbs_info, lines_of}
use storing_devices_logs_tfm.Usb.Log.Save.{reusing}
use storing_devices_logs_tfm.Usb.Log.Events.{Event, says, read_event, read_events, usb_line}
use storing_devices_logs_tfm.Usb.Log.Events.Simulate.{Runs}
use storing_devices_logs_tfm.Usb.Log.Events.Whole.{process_lines-machine}
use storing_devices_logs_tfm.Usb.Log.Events.Order.{
  AreDisjoint, AreApart, machine_of, machine_of-Represents, process_lines_commute,
}
use storing_devices_logs_tfm.Usb.Log.Events.Listed.{IsListed}
use storing_devices_logs_tfm.Usb.Log.Events.Reported.{get_usbs_info-reported}
use storing_devices_logs_tfm.Usb.Log.Events.Origins.{ComesFrom, get_usbs_info-origins}
use storing_devices_logs_tfm.Samples.Log.{newline, new_line, storage_line, gone_line, runs}
use storing_devices_logs_tfm.Samples.Sessions.{port, start-IsWellFormed}

-- A storage device is plugged in, and it leaves.
abbrev pub there_and_gone : Bytes
there_and_gone = new_line ++ (newline ++ (storage_line ++ (newline ++ gone_line)))

abbrev pub plugged_device : UsbInterface
plugged_device = stored (connected new_line initialized)

abbrev pub plugged_state : State
plugged_state = record { interfaces = (port, plugged_device) ∷ []; usbs = [] }

abbrev other_port : Bytes
other_port = text "2-3"

abbrev other_line : Bytes
other_line = text "Mar 12 10:09:00 h kernel: usb 2-3: new high-speed USB device number 4"

new_line-read : read_event new_line ≡ done (says (usb_line new_line none))
unfolding read_event runs
new_line-read = refl

other_line-read : read_event other_line ≡ done (says (usb_line other_line none))
unfolding read_event runs
other_line-read = refl

readable : All IsReadable (new_line ∷ storage_line ∷ gone_line ∷ [])
unfolding runs
readable = (λ h. cc (h), (λ h. cc (h), (λ h. cc (h), tt)))

process_lines-machine_example :
    (es : List Event) × (read_events (new_line ∷ storage_line ∷ gone_line ∷ []) ≡ done es)
    × Runs (new_line ∷ storage_line ∷ gone_line ∷ []) start (machine_of start) es
process_lines-machine_example =
    process_lines-machine (new_line ∷ storage_line ∷ gone_line ∷ []) start (machine_of start)
      readable (machine_of-Represents start start-IsWellFormed)

-- A key that is one port is not the other one.
ports_differ : (k : Bytes) → k ≡ port → k ≢ other_port
unfolding runs equal
ports_differ k e f = let h : false ≡ true = (equal_iff port other_port).1 (sym e ∙ f) in cc (h)

some_eq : (j k : Bytes) → some j ≡ some k → k ≡ j
some_eq j k e = cc (e)

disjoint : AreDisjoint (says (usb_line new_line none)) (says (usb_line other_line none))
unfolding runs
disjoint k (inl e) (inl f) = ports_differ k e f
disjoint k (inl e) (inr f) = ports_differ k e (some_eq other_port k f)
disjoint k (inr e) (inl f) = ports_differ k (some_eq port k e) f
disjoint k (inr e) (inr f) = ports_differ k (some_eq port k e) (some_eq other_port k f)

apart :
    AreApart
      (says (usb_line new_line none))
      (says (usb_line other_line none))
      (machine_of start).ports
unfolding runs
apart x y e f = cc (e)

process_lines_commute_example :
    process_lines (new_line ∷ other_line ∷ []) start
    ≡ process_lines (other_line ∷ new_line ∷ []) start
process_lines_commute_example =
    process_lines_commute new_line other_line start (says (usb_line new_line none))
      (says (usb_line other_line none)) start-IsWellFormed new_line-read other_line-read disjoint
      apart

pub there_and_gone-lines :
    lines_of (some there_and_gone) ≡ (new_line ∷ storage_line ∷ []) ++ gone_line ∷ []
unfolding runs
there_and_gone-lines = refl

pub plugged_state-reached : process_lines (new_line ∷ storage_line ∷ []) start ≡ done plugged_state
unfolding runs
plugged_state-reached = refl

pub plugged_device-found : find port plugged_state.interfaces ≡ some plugged_device
unfolding runs
plugged_device-found = refl

get_usbs_info-reported_example :
    (usbs : Usbs) × (get_usbs_info reusing (some there_and_gone) ≡ done usbs)
    × IsListed plugged_device.connection_time usbs
get_usbs_info-reported_example =
    get_usbs_info-reported (some there_and_gone) (new_line ∷ storage_line ∷ []) (gone_line ∷ [])
      plugged_state port plugged_device there_and_gone-lines plugged_state-reached
      plugged_device-found refl refl readable.1.1

pub there_and_gone-IsReadable : All IsReadable (lines_of (some there_and_gone))
unfolding runs
there_and_gone-IsReadable = readable

get_usbs_info-origins_example :
    (usbs : Usbs) × (get_usbs_info reusing (some there_and_gone) ≡ done usbs)
    × ((k : Bytes) (u : UsbInfo)
        → find k usbs ≡ some u
        → ComesFrom (lines_of (some there_and_gone)) u)
get_usbs_info-origins_example =
    get_usbs_info-origins (some there_and_gone) there_and_gone-IsReadable
