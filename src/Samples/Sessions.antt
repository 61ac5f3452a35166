-- ===== src/Samples/Sessions.antt =====
-- The theorems on whole lines and whole logs of usb.cpp, at the lines of the sample log.
use storing_devices_logs_tfm.Base.{
  ◌≡◌, refl, [], ◌∷◌, some, none, Bytes, text, done, fault, invalid_iterator, Ends, All,
}
use storing_devices_logs_tfm.StdMap.{find}
use storing_devices_logs_tfm.Usb.{UsbInterface, initialized}
use storing_devices_logs_tfm.Usb.Storage.{stored, connected}
use storing_devices_logs_tfm.Usb.Information.{IsReadable}
use storing_devices_logs_tfm.Usb.Log.{
  State, start, process_line, process_lines, get_usbs_info, lines_of,
}
use storing_devices_logs_tfm.Usb.Log.Invariant.{Moves, IsWellFormed}
use storing_devices_logs_tfm.Usb.Log.Step.{process_line-Ends}
use storing_devices_logs_tfm.Usb.Log.Lines.{IsConnection, IsDisconnection, IsStorage, IsSerial}
use storing_devices_logs_tfm.Usb.Log.Run.{AreListed, get_usbs_info-Ends, get_usbs_info_dangling}
use storing_devices_logs_tfm.Usb.Log.Sessions.{stale_connection}
use storing_devices_logs_tfm.Usb.Log.Save.{reusing, other, save_interfaces_info_in_usbs_map}
use storing_devices_logs_tfm.Usb.Log.Save.Reference.{record_all, empty_all}
use storing_devices_logs_tfm.Usb.Log.Save.Loop.{save-reusing}
use storing_devices_logs_tfm.Samples.Log.{new_line, serial_line, storage_line, gone_line, log, runs}

abbrev pub port : Bytes
port = text "1-1"

-- A mouse on the port, and a storage device there.
abbrev mouse : UsbInterface
mouse = connected new_line initialized

abbrev stick : UsbInterface
stick = stored (record mouse { serial_number = text "E0D5" })

abbrev with_mouse : State
with_mouse = record { interfaces = (port, mouse) ∷ []; usbs = [] }

abbrev with_stick : State
with_stick = record { interfaces = (port, stick) ∷ []; usbs = [] }

with_stick-IsWellFormed : IsWellFormed with_stick
with_stick-IsWellFormed = record {
  interfaces_sorted = (tt, tt);
  devices = record { sorted = tt; recorded = tt };
}

pub start-IsWellFormed : IsWellFormed start
start-IsWellFormed = record {
  interfaces_sorted = tt;
  devices = record { sorted = tt; recorded = tt };
}

pub new_line-IsConnection : IsConnection port new_line
unfolding runs
new_line-IsConnection = record {
  about = record {
    no_storage = refl;
    usb_found = text "usb 1-1";
    usb_searched = refl;
    usb_named = refl;
  };
  plain = record {
    unannounced = refl;
    no_serial = refl;
    no_product = refl;
    no_manufacturer = refl;
  };
  new_found = text "usb 1-1: new";
  new_searched = refl;
  new_named = refl;
  no_disconnection = refl;
}

pub gone_line-IsDisconnection : IsDisconnection port gone_line
unfolding runs
gone_line-IsDisconnection = record {
  about = record {
    no_storage = refl;
    usb_found = text "usb 1-1";
    usb_searched = refl;
    usb_named = refl;
  };
  plain = record {
    unannounced = refl;
    no_serial = refl;
    no_product = refl;
    no_manufacturer = refl;
  };
  not_new = refl;
  gone = text "USB disconnect";
  gone_searched = refl;
}

pub storage_line-IsStorage : IsStorage port storage_line
unfolding runs
storage_line-IsStorage = record {
  storage_match = text "usb-storage 1-1";
  storage_searched = refl;
  storage_named = refl;
}

unfoldable pub serial_line-IsSerial : IsSerial port serial_line
unfolding runs
serial_line-IsSerial = record {
  about = record {
    no_storage = refl;
    usb_found = text "usb 1-1";
    usb_searched = refl;
    usb_named = refl;
  };
  unannounced = refl;
  serial = text "E0D5";
  serial_searched = refl;
  not_new = refl;
  no_disconnection = refl;
}

pub nothing_there : {V : Type 0} (k : Bytes) → find {V = V} k [] ≡ none
unfolding runs
nothing_there k = refl

mouse_there : find port with_mouse.interfaces ≡ some mouse
unfolding runs
mouse_there = refl

stick_there : find port with_stick.interfaces ≡ some stick
unfolding runs
stick_there = refl

process_line-Ends_example :
    Ends (Moves gone_line with_stick) (¬ IsReadable gone_line) (process_line gone_line with_stick)
process_line-Ends_example = process_line-Ends gone_line with_stick with_stick-IsWellFormed

get_usbs_info-Ends_example :
    Ends AreListed (¬ All IsReadable (lines_of (some log))) (get_usbs_info reusing (some log))
get_usbs_info-Ends_example = get_usbs_info-Ends (some log)

stale_connection_example : process_lines (gone_line ∷ new_line ∷ []) with_mouse ≡ done with_mouse
stale_connection_example =
    stale_connection port gone_line new_line with_mouse mouse gone_line-IsDisconnection
      new_line-IsConnection mouse_there refl refl

-- The lines of a log that ends with the connection.
abbrev connected_log : Bytes
connected_log = new_line

connected_run : process_lines (lines_of (some connected_log)) start ≡ done with_mouse
unfolding runs
connected_run = refl

get_usbs_info_dangling_example : get_usbs_info other (some connected_log) ≡ fault invalid_iterator
get_usbs_info_dangling_example =
    get_usbs_info_dangling (some connected_log) with_mouse connected_run (λ idle. cc (idle.0))

save-reusing_example :
    save_interfaces_info_in_usbs_map reusing with_stick.interfaces []
    ≡ done (empty_all with_stick.interfaces, record_all with_stick.interfaces [])
save-reusing_example = save-reusing with_stick.interfaces [] (tt, tt) tt
