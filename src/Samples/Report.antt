-- ===== src/Samples/Report.antt =====
-- The theorems on output.cpp and main.cpp, on a machine with a calendar of twelve months of 30 days.
use storing_devices_logs_tfm.Base.{
  ℕ, suc, ◌+◌, ◌*◌, ◌/◌, ◌%◌, ◌^◌, ◌≤◌, ◌<◌, ltb, ◌≡◌, refl, arith, ◌↔◌, ◌⊎◌, Bool, true, false,
  if◌then◌else◌, [], ◌∷◌, ◌++◌, take, get_elem?, some, All, ℤ, pos, negsuc, Bytes, text, equal,
  done, ◌>>=◌, Finishes,
}
use storing_devices_logs_tfm.StdMap.{StdMap}
use storing_devices_logs_tfm.Decimal.{natural}
use storing_devices_logs_tfm.Usb.{Usbs}
use storing_devices_logs_tfm.Usb.Log.{lines_of}
use storing_devices_logs_tfm.Usb.Log.Save.{reusing}
use storing_devices_logs_tfm.Disk.{HardDiskInfo}
use storing_devices_logs_tfm.Disk.Info.{blank, get_disks_info, get_info_from_disk, insert_all}
use storing_devices_logs_tfm.Disk.Names.{insert, get_disks_set}
use storing_devices_logs_tfm.Output.{at_start}
use storing_devices_logs_tfm.Output.Texts.{start_html, before_hard_disks, end_html}
use storing_devices_logs_tfm.Output.Times.{Tm, Clock, zero_tm}
use storing_devices_logs_tfm.Output.Size.{Floats, unit_of, letters, human_readable_byte_count}
use storing_devices_logs_tfm.Output.Size.Digits.{
  IsInRange, prefix_of, human_readable_byte_count-digits,
}
use storing_devices_logs_tfm.Output.Html.{no_disks, print_html}
use storing_devices_logs_tfm.Output.Report.{usbs_report, disks_report, any_disk}
use storing_devices_logs_tfm.Output.Rows.{print_html-report}
use storing_devices_logs_tfm.Output.Calendar.{IsCalendar}
use storing_devices_logs_tfm.Output.Finish.{AreSizes, ArePrintable, print_html-Finishes}
use storing_devices_logs_tfm.Main.{Reading, Machine, disks_of, main}
use storing_devices_logs_tfm.Main.Finish.{IsUsual, main-Finishes}
use storing_devices_logs_tfm.Samples.Log.{traveler, found_line, log, runs}
use storing_devices_logs_tfm.Samples.Disk.{ata_disk}
use storing_devices_logs_tfm.Usb.Information.{IsReadable}

-- The seconds since the first day of the calendar.
abbrev pub seconds_of : ℤ → ℕ
seconds_of (pos n) = n
seconds_of (negsuc n) = 0

unfoldable pub broken_down : ℤ → Tm
broken_down t =
    let s = seconds_of t in
    record zero_tm {
      tm_sec = pos (s % 60);
      tm_min = pos (s / 60 % 60);
      tm_hour = pos (s / 3600 % 24);
      tm_mday = pos (s / 86400 % 30 + 1);
      tm_mon = pos (s / 2592000 % 12);
    }

abbrev pub march : Bytes → Tm → Tm
march t tm = record tm {
  tm_mon = if equal (take 3 t) (text "Mar") then pos 2 else pos 0;
  tm_mday = pos 12;
}

unfoldable pub seconds_from : Tm → ℤ
seconds_from t = pos (
    seconds_of t.tm_sec
    + 60 * seconds_of t.tm_min
    + 3600 * seconds_of t.tm_hour
    + 86400 * seconds_of t.tm_mday
    + 2592000 * seconds_of t.tm_mon)

abbrev pub clock : Clock
clock = record {
  now = pos 0;
  strptime = λ t format tm. march t tm;
  localtime = broken_down;
  gmtime = broken_down;
  mktime = seconds_from;
}

march_month : (b : Bool) → (n : ℕ) × ((if b then pos 2 else pos 0) ≡ pos n) × (n < 12)
march_month true = (2, refl, omega arith)
march_month false = (0, refl, omega arith)

pub clock-IsCalendar : IsCalendar clock
unfolding broken_down
clock-IsCalendar = record {
  strptime_month = λ t. march_month (equal (take 3 t) (text "Mar"));
  localtime_month = λ t. (seconds_of t / 2592000 % 12, refl, omega arith);
  gmtime_month = λ t. (seconds_of t / 2592000 % 12, refl, omega arith);
}

-- One less than the number of times that `unit` goes into `bytes`, and 5 at most.
unfoldable pub rounds : ℕ → ℕ → ℕ
rounds bytes unit =
    if ltb bytes (unit ^ 2)
    then 0
    else (if ltb bytes (unit ^ 3)
        then 1
        else (if ltb bytes (unit ^ 4)
            then 2
            else (if ltb bytes (unit ^ 5) then 3 else (if ltb bytes (unit ^ 6) then 4 else 5))))

abbrev pub floats : Floats
floats = record { log_ratio = λ bytes unit. suc (rounds bytes unit); pow = λ unit exp. unit ^ exp }

rounds-less : (bytes unit : ℕ) → rounds bytes unit < 6
unfolding rounds
rounds-less bytes unit = ground arith

pub floats-IsInRange : IsInRange floats
floats-IsInRange = record {
  some_prefix = λ bytes si h b. (rounds bytes (unit_of si), refl, rounds-less bytes (unit_of si));
  exact = λ n si h. refl;
}

human_readable_byte_count-digits_example :
    (n q c : ℕ) × (floats.log_ratio 1500301910016 1000 ≡ suc n)
    × (get_elem? (letters true) n ≡ some c)
    × (human_readable_byte_count floats 1500301910016 true
        ≡ done (natural q ++ (text " " ++ (prefix_of true c ++ text "B"))))
    × (q * 1000 ^ suc n ≤ 1500301910016)
    × (1500301910016 < (q + 1) * 1000 ^ suc n)
human_readable_byte_count-digits_example =
    human_readable_byte_count-digits floats 1500301910016 true floats-IsInRange (omega arith)
      (omega arith)

abbrev pub usbs : Usbs
usbs = (text "E0D5", traveler) ∷ []

abbrev pub disks : StdMap HardDiskInfo
disks =
    (text "/dev/sda", record blank { is_empty = false; size = 1500301910016 })
    ∷ (text "/dev/sdb", blank)
    ∷ []

print_html-report_example :
    print_html clock floats usbs disks at_start
    ≡ usbs_report clock 1 usbs >>= λ u. disks_report floats disks >>= λ d. done (
      start_html
          ++ (u
              ++ (before_hard_disks
                  ++ (d ++ ((if any_disk disks then [] else no_disks) ++ end_html)))),
      at_start,
    )
print_html-report_example = print_html-report clock floats usbs disks

disks-AreSizes : AreSizes disks
disks-AreSizes = (omega arith, (omega arith, tt))

print_html-Finishes_example :
    Finishes (print_html clock floats usbs disks at_start) ↔ ArePrintable disks
print_html-Finishes_example =
    print_html-Finishes floats floats-IsInRange clock usbs disks clock-IsCalendar disks-AreSizes

-- A machine where a device was plugged in and out, with one disk.
abbrev pub reading : Reading
reading = record {
  log = some log;
  entries = some (text "sda" ∷ text "tty" ∷ []);
  devices = λ k. ata_disk;
}

abbrev pub machine : Machine
machine = record {
  geteuid = 0;
  allocator = reusing;
  clock = clock;
  floats = floats;
  for_terminal = reading;
  for_report = reading;
}

found_line-IsReadable : IsReadable found_line
unfolding runs
found_line-IsReadable h = (
  record { first = b'0'; rest = text "951"; first_is_digit = refl; found = refl },
  record { first = b'1'; rest = text "666"; first_is_digit = refl; found = refl },
)

log-IsReadable : All IsReadable (lines_of (some log))
unfolding runs
log-IsReadable = (
  λ h. absurd (cc),
  (
    found_line-IsReadable,
    (
      λ h. absurd (cc),
      (λ h. absurd (cc), (λ h. absurd (cc), (λ h. absurd (cc), (λ h. absurd (cc), tt)))),
    ),
  ),
)

pub reading-AreSizes : AreSizes (disks_of reading)
unfolding runs get_disks_info get_disks_set get_info_from_disk insert_all insert
reading-AreSizes = (omega arith, tt)

pub reading-IsUsual : IsUsual reading
reading-IsUsual = record { readable = log-IsReadable; sizes = reading-AreSizes }

main-Finishes_example :
    Finishes (main machine)
    ↔ ((0 < machine.geteuid) ⊎ (ArePrintable (disks_of reading) × ArePrintable (disks_of reading)))
main-Finishes_example =
    main-Finishes machine refl clock-IsCalendar floats-IsInRange reading-IsUsual reading-IsUsual
