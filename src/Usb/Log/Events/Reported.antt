-- ===== src/Usb/Log/Events/Reported.antt =====
-- A storage device that is on a port at some line, and the devices that getUSBsInfo returns.
use storing_devices_logs_tfm.Base.{
  true, false, ◌≡◌, refl, ◌∙◌, List, ◌++◌, some, Option, Bytes, inl, inr, done, All,
}
use storing_devices_logs_tfm.StdMap.{find, IsSorted}
use storing_devices_logs_tfm.Usb.{UsbInterface, Usbs}
use storing_devices_logs_tfm.Usb.Information.{IsReadable}
use storing_devices_logs_tfm.Usb.Log.{State, start, process_lines, lines_of, get_usbs_info}
use storing_devices_logs_tfm.Usb.Log.Invariant.{IsWellFormed}
use storing_devices_logs_tfm.Usb.Log.Run.{lines_then, process_lines-Ends, start-IsWellFormed}
use storing_devices_logs_tfm.Usb.Log.Save.{reusing}
use storing_devices_logs_tfm.Usb.Log.Save.Reference.{record_all}
use storing_devices_logs_tfm.Usb.Log.Save.Loop.{save-reusing}
use storing_devices_logs_tfm.Usb.Log.Events.{Machine, run}
use storing_devices_logs_tfm.Usb.Log.Events.Order.{machine_of, machine_of-Represents}
use storing_devices_logs_tfm.Usb.Log.Events.Simulate.{Represents}
use storing_devices_logs_tfm.Usb.Log.Events.Whole.{process_lines-machine}
use storing_devices_logs_tfm.Usb.Log.Events.Pending.{IsPlugged, IsKept, run-IsKept}
use storing_devices_logs_tfm.Usb.Log.Events.Listed.{IsListed, record_all_keeps, record_all_lists}

-- What the loop at the end makes of a device that is on a port or in the map.
kept-IsListed :
    (time k : Bytes) (t : State)
    → IsSorted t.usbs
    → IsKept time k (machine_of t)
    → IsListed time (record_all t.interfaces t.usbs)
kept-IsListed time k t s (inl p) = record_all_lists time k t.interfaces t.usbs s p
kept-IsListed time k t s (inr r) = record_all_keeps time t.interfaces t.usbs s r

shown-IsKept :
    (time k : Bytes) (t : State) (m : Machine)
    → Represents t m
    → IsKept time k m
    → IsKept time k (machine_of t)
shown-IsKept time k t m r (inl p) = inl (record {
  device = p.device;
  here = r.interfaces_shown.found k ∙ p.here;
  used = p.used;
  storage = p.storage;
  since = p.since;
})
shown-IsKept time k t m r (inr l) = inr (record {
  serial_number = l.serial_number;
  info = l.info;
  listed = r.usbs_shown.found l.serial_number ∙ l.listed;
  connected = l.connected;
})

module _ (syslog : Option Bytes) (before after : List Bytes) (s : State) (k : Bytes)
    (e : UsbInterface) where
  -- If behind some line of the log a port holds a storage device in use, and every later line that
  -- announces a device has its numbers, then getUSBsInfo with an allocator that hands the freed
  -- node back returns a map of devices in which some device has the time of that connection among
  -- its connection times.
  pub get_usbs_info-reported :
      lines_of syslog ≡ before ++ after
      → process_lines before start ≡ done s
      → find k s.interfaces ≡ some e
      → e.is_empty ≡ false
      → e.is_storage_device ≡ true
      → All IsReadable after
      → (usbs : Usbs) × (get_usbs_info reusing syslog ≡ done usbs) × IsListed e.connection_time usbs
  unfolding get_usbs_info
  get_usbs_info-reported split first here used stores readable =
      let w : IsWellFormed s = rw first at (process_lines-Ends before start start-IsWellFormed) in
      let (es, read, ran) =
        process_lines-machine after s (machine_of s) readable (machine_of-Represents s w) in
      let (t, rest, shown) = ran in
      let all : process_lines (before ++ after) start ≡ done t =
        lines_then before after start s t first rest in
      let plugged : IsPlugged e.connection_time k (machine_of s).ports = record {
        device = e;
        here = here;
        used = used;
        storage = stores;
        since = refl;
      } in
      let kept = run-IsKept e.connection_time k es (machine_of s) (inl plugged) in
      let listed =
        kept-IsListed e.connection_time k t shown.usbs_shown.sorted
          (shown-IsKept e.connection_time k t (run es (machine_of s)) shown kept) in
      (
        record_all t.interfaces t.usbs,
        rw (
          split,
          all,
          save-reusing t.interfaces t.usbs shown.interfaces_shown.sorted shown.usbs_shown.sorted,
        ),
        listed,
      )
