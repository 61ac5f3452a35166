-- ===== src/Main/Shown.antt =====
-- What a run of the whole program shows of a storage device in the log.
use storing_devices_logs_tfm.Base.{
  ltb, true, false, ◌≡◌, sym, subst, ap, ◌∙◌, arith, inr, List, ◌++◌, [], some, Bytes, All,
  All-behind, done, >>=-eq-done, if◌then◌else◌,
}
use storing_devices_logs_tfm.StdMap.{find}
use storing_devices_logs_tfm.Usb.{UsbInterface, Usbs}
use storing_devices_logs_tfm.Usb.Information.{IsReadable}
use storing_devices_logs_tfm.Usb.Log.{State, start, process_lines, get_usbs_info, lines_of}
use storing_devices_logs_tfm.Usb.Log.Save.{reusing}
use storing_devices_logs_tfm.Usb.Log.Events.Listed.{IsListed}
use storing_devices_logs_tfm.Usb.Log.Events.Reported.{get_usbs_info-reported}
use storing_devices_logs_tfm.Output.{at_start, Globals}
use storing_devices_logs_tfm.Output.Html.{print_html, no_disks}
use storing_devices_logs_tfm.Output.Texts.{start_html, before_hard_disks, end_html}
use storing_devices_logs_tfm.Output.Report.{usbs_report, disks_report, any_disk}
use storing_devices_logs_tfm.Output.Rows.{print_html-report}
use storing_devices_logs_tfm.Output.Terminal.{print_disks_map_in_terminal}
use storing_devices_logs_tfm.Output.Size.Digits.{IsInRange}
use storing_devices_logs_tfm.Output.Calendar.{IsCalendar}
use storing_devices_logs_tfm.Output.Finish.{ArePrintable}
use storing_devices_logs_tfm.Main.{Machine, Run, disks_of, main}
use storing_devices_logs_tfm.Main.Finish.{IsUsual, main-Finishes}

-- The parts of the page in their order.
abbrev pub page : Machine → Bytes → Bytes → Bytes
page m rows disks =
    start_html
    ++ (rows
        ++ (before_hard_disks
            ++ (disks
                ++ ((if any_disk (disks_of m.for_report) then [] else no_disks) ++ end_html))))

-- The run ends well, and its report is the page of a map of devices that has the time.
pub record Reports (m : Machine) (time : Bytes) : Type 0 where
  pub run : Run
  pub ends : main m ≡ done run
  pub succeeds : run.status ≡ 0
  pub usbs : Usbs
  pub listed : IsListed time usbs
  pub rows : Bytes
  pub rows_reported : usbs_report m.clock 1 usbs ≡ done rows
  pub disks : Bytes
  pub disks_reported : disks_report m.floats (disks_of m.for_report) ≡ done disks
  pub written : run.report ≡ some (page m rows disks)

-- The run of a privileged user, taken apart.
pub record Parts (m : Machine) (r : Run) : Type 0 where
  pub again : Usbs
  pub read : get_usbs_info m.allocator m.for_report.log ≡ done again
  pub html : Bytes
  pub left : Globals
  pub printed :
      print_html m.clock m.floats again (disks_of m.for_report) at_start ≡ done (html, left)
  pub status_zero : r.status ≡ 0
  pub report_html : r.report ≡ some html

main-Parts : (m : Machine) (r : Run) → ltb 0 m.geteuid ≡ false → main m ≡ done r → Parts m r
unfolding main
main-Parts m r root h =
    let (first, e₀, k₀) =
      >>=-eq-done (get_usbs_info m.allocator m.for_terminal.log) _ (rw root at h) in
    let (disks, e₁, k₁) =
      >>=-eq-done (print_disks_map_in_terminal m.floats (disks_of m.for_terminal)) _ k₀ in
    let (again, e₂, k₂) = >>=-eq-done (get_usbs_info m.allocator m.for_report.log) _ k₁ in
    let (x, e₃, k₃) =
      >>=-eq-done (print_html m.clock m.floats again (disks_of m.for_report) at_start) _ k₂ in
    record {
      again = again;
      read = e₂;
      html = x.0;
      left = x.1;
      printed = e₃;
      status_zero = sym (cc (k₃));
      report_html = sym (cc (k₃));
    }

-- The page that is written for a map of devices.
page_of :
    (m : Machine) (usbs : Usbs) (html : Bytes) (left : Globals)
    → print_html m.clock m.floats usbs (disks_of m.for_report) at_start ≡ done (html, left)
    → (rows : Bytes) × (disks : Bytes) × (usbs_report m.clock 1 usbs ≡ done rows)
      × (disks_report m.floats (disks_of m.for_report) ≡ done disks)
      × (html ≡ page m rows disks)
page_of m usbs html left h =
    let reported = sym (print_html-report m.clock m.floats usbs (disks_of m.for_report)) ∙ h in
    let (rows, e, k) = >>=-eq-done (usbs_report m.clock 1 usbs) _ reported in
    let (disks, f, l) = >>=-eq-done (disks_report m.floats (disks_of m.for_report)) _ k in
    (rows, disks, e, f, sym (cc (l)))

module _ (m : Machine) (before after : List Bytes) (s : State) (k : Bytes) (e : UsbInterface) where
  -- If the user is root, the allocator hands the freed node back, the months of the library are
  -- those of the calendar, the logarithm gives one of the six prefixes, the numbers in both logs
  -- can be read, the sizes fit an unsigned long long, no identified disk of the two readings has a
  -- size of 3 to 999 bytes, and a port holds a storage device in use behind some line of the log
  -- that is read for the report, then the program ends with the status 0, and its report is the
  -- page of the disks and of a map of devices in which some device has the time of that connection
  -- among its connection times.
  pub main-reported :
      m.geteuid ≡ 0
      → m.allocator ≡ reusing
      → IsCalendar m.clock
      → IsInRange m.floats
      → IsUsual m.for_terminal
      → IsUsual m.for_report
      → ArePrintable (disks_of m.for_terminal)
      → ArePrintable (disks_of m.for_report)
      → lines_of m.for_report.log ≡ before ++ after
      → process_lines before start ≡ done s
      → find k s.interfaces ≡ some e
      → e.is_empty ≡ false
      → e.is_storage_device ≡ true
      → Reports m e.connection_time
  main-reported root a c r t u p q split first here used stores =
      let (run, ends) = (main-Finishes m a c r t u).1 (inr (p, q)) in
      let parts = main-Parts m run (ground (arith, root)) ends in
      let all : All IsReadable (before ++ after) = rw split at u.readable in
      let (usbs, read, listed) =
        get_usbs_info-reported m.for_report.log before after s k e split first here used stores
          (All-behind IsReadable before after all) in
      let same : usbs ≡ parts.again = cc (read, parts.read, a) in
      let (rows, disks, f, g, page) = page_of m parts.again parts.html parts.left parts.printed in
      record {
        run = run;
        ends = ends;
        succeeds = parts.status_zero;
        usbs = parts.again;
        listed = subst (IsListed e.connection_time) same listed;
        rows = rows;
        rows_reported = f;
        disks = disks;
        disks_reported = g;
        written = parts.report_html ∙ ap some page;
      }
