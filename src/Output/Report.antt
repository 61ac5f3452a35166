-- ===== src/Output/Report.antt =====
-- The report that printHTML is meant to write, put together row by row without variables that one
-- row could leave to the next.
use storing_devices_logs_tfm.Base.{
  ℕ, ◌+◌, false, Bool, not, ◌||◌, List, [], ◌∷◌, ◌++◌, if◌then◌else◌, Bytes, Outcome, done, ◌>>=◌,
}
use storing_devices_logs_tfm.StdMap.{StdMap}
use storing_devices_logs_tfm.Usb.{Usbs}
use storing_devices_logs_tfm.Disk.{HardDiskInfo}
use storing_devices_logs_tfm.Output.{Globals, at_start}
use storing_devices_logs_tfm.Output.Texts.{times_table, times_end}
use storing_devices_logs_tfm.Output.Times.{Clock}
use storing_devices_logs_tfm.Output.Size.{Floats}
use storing_devices_logs_tfm.Output.Html.{
  note_usb, usb_table, local_string, utc_string, est_string, next, time_row, note_disk, disk_table,
}

-- One time in the three time zones, and nothing where a connection has no disconnection yet.
abbrev pub Zones : Type 0
Zones = Bytes × Bytes × Bytes

unfoldable pub zones : Clock → Bytes → Outcome Zones
zones clock t = local_string clock t >>= λ l.
    utc_string clock t >>= λ u. est_string clock t >>= λ e. done (l, u, e)

unfoldable pub zones_of_first : Clock → List Bytes → Outcome Zones
zones_of_first clock [] = done ([], [], [])
zones_of_first clock (t ∷ ts) = zones clock t

abbrev pub with_times : Zones → Zones → Globals → Globals
with_times (l, u, e) (l', u', e') g = record g {
  usb_localtime_connection = l;
  usb_localtime_disconnection = l';
  usb_utc_connection = u;
  usb_utc_disconnection = u';
  usb_est_connection = e;
  usb_est_disconnection = e';
}

-- The rows of the times: the n-th connection with the n-th disconnection.
unfoldable pub times_report : Clock → List Bytes → List Bytes → Outcome Bytes
unfolding zones zones_of_first
times_report clock [] ds = done []
times_report clock (t ∷ ts) ds = zones clock t >>= λ z. zones_of_first clock ds >>= λ z'.
    times_report clock ts (next ds) >>= λ rest. done (time_row (with_times z z' at_start) ++ rest)

unfoldable pub usbs_report : Clock → ℕ → Usbs → Outcome Bytes
unfolding times_report
usbs_report clock n [] = done []
usbs_report clock n ((k, i) ∷ usbs_map) =
    times_report clock i.connection_times i.disconnection_times >>= λ times.
    usbs_report clock (n + 1) usbs_map >>= λ rest.
    done ((usb_table n (note_usb i at_start) ++ (times_table ++ (times ++ times_end))) ++ rest)

unfoldable pub disk_report : Floats → Bytes → HardDiskInfo → Outcome Bytes
disk_report floats path i =
    if i.is_empty then done [] else (note_disk floats path i at_start >>= λ g. done (disk_table g))

unfoldable pub disks_report : Floats → StdMap HardDiskInfo → Outcome Bytes
unfolding disk_report
disks_report floats [] = done []
disks_report floats ((path, i) ∷ disks_map) = disk_report floats path i >>= λ row.
    disks_report floats disks_map >>= λ rest. done (row ++ rest)

abbrev pub any_disk : StdMap HardDiskInfo → Bool
any_disk [] = false
any_disk ((path, i) ∷ disks_map) = not i.is_empty || any_disk disks_map
