-- ===== src/Samples/Returns.antt =====
-- The theorems on a device that is plugged in a second time, at lines of two days.
use storing_devices_logs_tfm.Base.{◌≡◌, refl, [], ◌∷◌, ◌++◌, some, Bytes, text, done}
use storing_devices_logs_tfm.StdMap.{find}
use storing_devices_logs_tfm.Usb.{initialized}
use storing_devices_logs_tfm.Usb.Checks.{date_of}
use storing_devices_logs_tfm.Usb.Disconnection.{first_session}
use storing_devices_logs_tfm.Usb.Log.{State, start, process_line, process_lines}
use storing_devices_logs_tfm.Usb.Log.Invariant.{IsWellFormed}
use storing_devices_logs_tfm.Usb.Log.Lines.{IsConnection, IsDisconnection, IsStorage, IsSerial}
use storing_devices_logs_tfm.Usb.Log.Sessions.{session_of}
use storing_devices_logs_tfm.Usb.Log.Announcements.{
  IsAnnouncement, announced_as, process_announcement,
}
use storing_devices_logs_tfm.StdMap.Replace.{set}
use storing_devices_logs_tfm.Usb.Log.Returns.{four_lines, one_more, two_sessions}
use storing_devices_logs_tfm.Samples.Log.{
  new_line, found_line, serial_line, storage_line, gone_line, traveler, runs,
}
use storing_devices_logs_tfm.Samples.Sessions.{
  port, new_line-IsConnection, serial_line-IsSerial, storage_line-IsStorage,
  gone_line-IsDisconnection, start-IsWellFormed, nothing_there,
}

abbrev new_again : Bytes
new_again = text "Mar 13 09:00:00 h kernel: usb 1-1: new high-speed USB device number 6"

abbrev serial_again : Bytes
serial_again = text "Mar 13 09:00:00 h kernel: usb 1-1: SerialNumber: E0D5"

abbrev storage_again : Bytes
storage_again =
    text "Mar 13 09:00:01 h kernel: usb-storage 1-1:1.0: USB Mass Storage device detected"

abbrev gone_again : Bytes
gone_again = text "Mar 13 09:30:00 h kernel: usb 1-1: USB disconnect, device number 6"

new_again-IsConnection : IsConnection port new_again
unfolding runs
new_again-IsConnection = record {
  about = record {
    no_storage = refl;
    usb_found = text "usb 1-1";
    usb_searched = refl;
    usb_named = refl;
  };
  plain = record {
    unannounced = refl;
    no_serial = refl;
    no_product = refl;
    no_manufacturer = refl;
  };
  new_found = text "usb 1-1: new";
  new_searched = refl;
  new_named = refl;
  no_disconnection = refl;
}

gone_again-IsDisconnection : IsDisconnection port gone_again
unfolding runs
gone_again-IsDisconnection = record {
  about = record {
    no_storage = refl;
    usb_found = text "usb 1-1";
    usb_searched = refl;
    usb_named = refl;
  };
  plain = record {
    unannounced = refl;
    no_serial = refl;
    no_product = refl;
    no_manufacturer = refl;
  };
  not_new = refl;
  gone = text "USB disconnect";
  gone_searched = refl;
}

storage_again-IsStorage : IsStorage port storage_again
unfolding runs
storage_again-IsStorage = record {
  storage_match = text "usb-storage 1-1";
  storage_searched = refl;
  storage_named = refl;
}

unfoldable serial_again-IsSerial : IsSerial port serial_again
unfolding runs
serial_again-IsSerial = record {
  about = record {
    no_storage = refl;
    usb_found = text "usb 1-1";
    usb_searched = refl;
    usb_named = refl;
  };
  unannounced = refl;
  serial = text "E0D5";
  serial_searched = refl;
  not_new = refl;
  no_disconnection = refl;
}

-- The port is free and the device is known.
abbrev known_there : State
known_there = record { interfaces = (port, initialized) ∷ []; usbs = (text "E0D5", traveler) ∷ [] }

known_there-IsWellFormed : IsWellFormed known_there
known_there-IsWellFormed = record {
  interfaces_sorted = (tt, tt);
  devices = record { sorted = (tt, tt); recorded = ((refl, refl), tt) };
}

port_there : find port known_there.interfaces ≡ some initialized
unfolding runs
port_there = refl

device_there : find (text "E0D5") known_there.usbs ≡ some traveler
unfolding runs
device_there = refl

two_sessions_example :
    (r : State) × (process_lines
        (four_lines new_line serial_line storage_line gone_line
          ++ four_lines new_again serial_again storage_again gone_again)
        start
      ≡ done r)
    × (find (text "E0D5") r.usbs
        ≡ some (
            one_more new_again gone_again
              (first_session (date_of gone_line) (session_of new_line serial_line-IsSerial))))
unfolding serial_line-IsSerial serial_again-IsSerial text
two_sessions_example =
    two_sessions port new_line serial_line storage_line gone_line start new_line-IsConnection
      serial_line-IsSerial storage_line-IsStorage gone_line-IsDisconnection new_again serial_again
      storage_again gone_again new_again-IsConnection serial_again-IsSerial storage_again-IsStorage
      gone_again-IsDisconnection refl start-IsWellFormed (nothing_there port)
      (nothing_there (text "E0D5"))

found_line-IsAnnouncement : IsAnnouncement port found_line
unfolding runs
found_line-IsAnnouncement = record {
  about = record {
    no_storage = refl;
    usb_found = text "usb 1-1";
    usb_searched = refl;
    usb_named = refl;
  };
  announced = refl;
  vendor = record { first = b'0'; rest = text "951"; first_is_digit = refl; found = refl };
  product = record { first = b'1'; rest = text "666"; first_is_digit = refl; found = refl };
  not_new = refl;
  no_disconnection = refl;
}

process_announcement_example :
    process_line found_line known_there
    ≡ done (record known_there {
      interfaces =
          set port (announced_as found_line-IsAnnouncement initialized) known_there.interfaces;
    })
process_announcement_example =
    process_announcement port found_line known_there initialized found_line-IsAnnouncement
      known_there-IsWellFormed.interfaces_sorted port_there
