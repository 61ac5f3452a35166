-- ===== src/Main.antt =====
-- main.cpp: the whole program. It reads the log and the disks twice, first for the terminal and
-- then for report.html; the machine may have changed in between.
pub mod Finish
pub mod Shown
use storing_devices_logs_tfm.Base.{
  ℕ, ltb, if◌then◌else◌, List, [], ◌∷◌, ◌++◌, Option, none, some, Bytes, text, Outcome, done, fault,
  ◌>>=◌,
}
use storing_devices_logs_tfm.StdMap.{StdMap}
use storing_devices_logs_tfm.Usb.Log.{get_usbs_info}
use storing_devices_logs_tfm.Usb.Log.Save.{Allocator}
use storing_devices_logs_tfm.Disk.{HardDiskInfo}
use storing_devices_logs_tfm.Disk.Info.{Device, get_disks_info}
use storing_devices_logs_tfm.Output.{at_start}
use storing_devices_logs_tfm.Output.Times.{Clock}
use storing_devices_logs_tfm.Output.Size.{Floats}
use storing_devices_logs_tfm.Output.Html.{print_html}
use storing_devices_logs_tfm.Output.Terminal.{
  print_usbs_map_in_terminal, print_disks_map_in_terminal,
}

-- What the machine answers at one time: the log, the entries of /dev, and the disks.
pub record Reading : Type 0 where
  pub log : Option Bytes
  pub entries : Option (List Bytes)
  pub devices : Bytes → Device

pub record Machine : Type 0 where
  pub geteuid : ℕ
  pub allocator : Allocator
  pub clock : Clock
  pub floats : Floats
  pub for_terminal : Reading
  pub for_report : Reading

abbrev pub disks_of : Reading → StdMap HardDiskInfo
disks_of r = get_disks_info r.entries r.devices

-- A run that ends: the value that `main` returns, what it wrote to the two streams, and the file.
pub record Run : Type 0 where
  pub status : ℕ
  pub errors : Bytes
  pub output : Bytes
  pub report : Option Bytes

abbrev pub not_root : Run
not_root = record {
  status = 1;
  errors = text "ERROR: Must be root to use" ++ (b'\n' ∷ []);
  output = [];
  report = none;
}

unfoldable pub main : Machine → Outcome Run
unfolding print_usbs_map_in_terminal print_disks_map_in_terminal print_html get_usbs_info
    get_disks_info
main m =
    if ltb 0 m.geteuid
    then done not_root
    else (get_usbs_info m.allocator m.for_terminal.log >>= λ usbs.
        print_disks_map_in_terminal m.floats (disks_of m.for_terminal) >>= λ disks.
        get_usbs_info m.allocator m.for_report.log >>= λ usbs_again.
        print_html m.clock m.floats usbs_again (disks_of m.for_report) at_start >>= λ (html, g).
        done (record {
          status = 0;
          errors = [];
          output = print_usbs_map_in_terminal usbs ++ disks;
          report = some html;
        }))
