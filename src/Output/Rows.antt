-- ===== src/Output/Rows.antt =====
-- printHTML against the report that is put together row by row.
use storing_devices_logs_tfm.Base.{
  ℕ, ◌+◌, true, false, Bool, not, ◌||◌, ◌≡◌, refl, sym, ap, ◌∙◌, arith, List, [], ◌∷◌, ◌++◌,
  append-nil, append_assoc, if◌then◌else◌, Bytes, Outcome, done, fault, ◌>>=◌, >>=-assoc, >>=-ap,
}
use storing_devices_logs_tfm.StdMap.{StdMap}
use storing_devices_logs_tfm.Usb.{Usbs}
use storing_devices_logs_tfm.Disk.{HardDiskInfo}
use storing_devices_logs_tfm.Output.{
  Globals, at_start, initialize_usb_variables, initialize_usb_times, initialize_disk_variables,
}
use storing_devices_logs_tfm.Output.Texts.{
  start_html, before_hard_disks, end_html, times_table, times_end,
}
use storing_devices_logs_tfm.Output.Times.{Clock}
use storing_devices_logs_tfm.Output.Size.{Floats}
use storing_devices_logs_tfm.Output.Html.{
  note_usb, usb_table, note_connection, note_disconnection, next, time_row, time_rows, usb_rows,
  note_disk, disk_row, disk_rows, no_disks, print_html,
}
use storing_devices_logs_tfm.Output.Report.{
  Zones, zones, zones_of_first, with_times, times_report, usbs_report, disk_report, disks_report,
  any_disk,
}

noted :
    (clock : Clock) (t : Bytes) (ds : List Bytes) (g : Globals)
    → note_connection clock t (initialize_usb_times g) >>= note_disconnection clock ds
      ≡ zones clock t >>= λ z. zones_of_first clock ds >>= λ z'. done (with_times z z' g)
unfolding note_connection note_disconnection zones zones_of_first initialize_usb_times
noted clock t [] g = ground arith
noted clock t (d ∷ ds) g = ground arith

-- The rest of the rows behind one pair of times.
glue :
    (first second : Outcome Zones) (rest : Outcome Bytes) (row : Zones → Zones → Bytes)
    (state : Zones → Zones → Globals) (k : Globals → Outcome (Bytes × Globals)) (acc : Bytes)
    (g : Globals)
    → ((z z' : Zones) → k (state z z') ≡ rest >>= λ b. done ((acc ++ row z z') ++ b, g))
    → (first >>= λ z. second >>= λ z'. done (state z z')) >>= k
      ≡ (first >>= λ z. second >>= λ z'. rest >>= λ b. done (row z z' ++ b)) >>= λ b.
          done (acc ++ b, g)
glue (done z) (done z') (done b) row state k acc g h =
    h z z' ∙ ap (λ x. done (x, g)) (append_assoc acc (row z z') b)
glue (done z) (done z') (fault e) row state k acc g h = h z z'
glue (done z) (fault e) rest row state k acc g h = refl
glue (fault e) second rest row state k acc g h = refl

time_rows-report :
    (clock : Clock) (ts ds : List Bytes) (acc : Bytes) (g : Globals)
    → time_rows clock ts ds acc (initialize_usb_times g)
      ≡ times_report clock ts ds >>= λ b. done (acc ++ b, initialize_usb_times g)
unfolding time_rows times_report initialize_usb_times time_row
time_rows-report clock [] ds acc g =
    ap (λ x. done (x, initialize_usb_times g)) (sym (append-nil acc))
time_rows-report clock (t ∷ ts) ds acc g =
    let k : Globals → Outcome (Bytes × Globals) =
      λ g₂. time_rows clock ts (next ds) (acc ++ time_row g₂) (initialize_usb_times g₂) in
    sym
      (>>=-assoc (note_connection clock t (initialize_usb_times g)) (note_disconnection clock ds) k)
    ∙ ap (λ m. m >>= k) (noted clock t ds g)
    ∙ glue (zones clock t) (zones_of_first clock ds) (times_report clock ts (next ds))
        (λ z z'. time_row (with_times z z' at_start)) (λ z z'. with_times z z' g) k acc
        (initialize_usb_times g)
        (λ z z'. time_rows-report clock ts (next ds) (acc ++ time_row (with_times z z' g)) g)

-- One device, and the devices behind it.
append_rest :
    (times rest : Outcome Bytes) (section : Bytes → Bytes) (k : Bytes → Outcome (Bytes × Globals))
    (acc : Bytes) (g : Globals)
    → ((b : Bytes) → k b ≡ rest >>= λ r. done ((acc ++ section b) ++ r, g))
    → times >>= k ≡ (times >>= λ b. rest >>= λ r. done (section b ++ r)) >>= λ b. done (acc ++ b, g)
append_rest (done b) (done r) section k acc g h =
    h b ∙ ap (λ x. done (x, g)) (append_assoc acc (section b) r)
append_rest (done b) (fault e) section k acc g h = h b
append_rest (fault e) rest section k acc g h = refl

usb_rows-report :
    (clock : Clock) (n : ℕ) (usbs_map : Usbs) (acc : Bytes)
    → usb_rows clock n usbs_map acc at_start
      ≡ usbs_report clock n usbs_map >>= λ b. done (acc ++ b, at_start)
unfolding usb_rows usbs_report initialize_usb_variables initialize_usb_times note_usb
usb_rows-report clock n [] acc = ap (λ x. done (x, at_start)) (sym (append-nil acc))
usb_rows-report clock n ((key, i) ∷ usbs_map) acc =
    let g = note_usb i at_start in
    let times = times_report clock i.connection_times i.disconnection_times in
    let section : Bytes → Bytes = λ b. usb_table n g ++ (times_table ++ (b ++ times_end)) in
    let k : Bytes × Globals → Outcome (Bytes × Globals) = λ x.
      usb_rows clock (n + 1) usbs_map (acc ++ section (x.0)) (initialize_usb_variables (x.1)) in
    ap (λ m. m >>= k) (time_rows-report clock i.connection_times i.disconnection_times [] g)
    ∙ >>=-assoc times (λ b. done (b, g)) k
    ∙ append_rest times (usbs_report clock (n + 1) usbs_map) section (λ b. k (b, g)) acc at_start
        (λ b. usb_rows-report clock (n + 1) usbs_map (acc ++ section b))

disk_row-report :
    (floats : Floats) (path : Bytes) (i : HardDiskInfo)
    → disk_row floats path i at_start ≡ disk_report floats path i >>= λ b. done (b, at_start)
unfolding disk_row disk_report note_disk initialize_disk_variables
disk_row-report floats path i = ground arith

or_assoc : (a b c : Bool) → ((a || b) || c) ≡ (a || (b || c))
or_assoc true b c = refl
or_assoc false b c = refl

or_false : (a : Bool) → a ≡ (a || false)
or_false true = refl
or_false false = refl

-- One disk, and the disks behind it.
append_disk :
    (row rest : Outcome Bytes) (found more : Bool) (k : Bytes → Outcome ((Bytes × Bool) × Globals))
    (acc : Bytes) (g : Globals)
    → ((b : Bytes) → k b ≡ rest >>= λ r. done (((acc ++ b) ++ r, more), g))
    → more ≡ found
    → row >>= k ≡ (row >>= λ b. rest >>= λ r. done (b ++ r)) >>= λ b. done ((acc ++ b, found), g)
append_disk (done b) (done r) found more k acc g h e =
    h b
    ∙ ap (λ x. done ((x, more), g)) (append_assoc acc b r)
    ∙ ap (λ f. done ((acc ++ (b ++ r), f), g)) e
append_disk (done b) (fault x) found more k acc g h e = h b
append_disk (fault x) rest found more k acc g h e = refl

disk_rows-report :
    (floats : Floats) (disks_map : StdMap HardDiskInfo) (found : Bool) (acc : Bytes)
    → disk_rows floats disks_map found acc at_start
      ≡ disks_report floats disks_map >>= λ b.
          done ((acc ++ b, found || any_disk disks_map), at_start)
unfolding disk_rows disks_report
disk_rows-report floats [] found acc =
    ap (λ x. done ((x, found), at_start)) (sym (append-nil acc))
    ∙ ap (λ f. done ((acc ++ [], f), at_start)) (or_false found)
disk_rows-report floats ((path, i) ∷ disks_map) found acc =
    let k : Bytes × Globals → Outcome ((Bytes × Bool) × Globals) =
      λ x. disk_rows floats disks_map (found || not i.is_empty) (acc ++ x.0) (x.1) in
    ap (λ m. m >>= k) (disk_row-report floats path i)
    ∙ >>=-assoc (disk_report floats path i) (λ b. done (b, at_start)) k
    ∙ append_disk (disk_report floats path i) (disks_report floats disks_map)
        (found || any_disk ((path, i) ∷ disks_map))
        ((found || not i.is_empty) || any_disk disks_map) (λ b. k (b, at_start)) acc at_start
        (λ b. disk_rows-report floats disks_map (found || not i.is_empty) (acc ++ b))
        (or_assoc found (not i.is_empty) (any_disk disks_map))

in_order : (a b c d e : Bytes) → (((a ++ b) ++ c) ++ d) ++ e ≡ a ++ (b ++ (c ++ (d ++ e)))
in_order a b c d e =
    append_assoc ((a ++ b) ++ c) d e
    ∙ append_assoc (a ++ b) c (d ++ e)
    ∙ append_assoc a b (c ++ (d ++ e))

-- printHTML, started with the variables as they are declared, writes what a report without shared
-- variables writes: each device, each pair of times and each disk is rendered from the declared
-- values, the n-th connection stands beside the n-th disconnection, the line that no disk was
-- found is there exactly if every disk is empty, and the variables are left as they were declared.
pub print_html-report :
    (clock : Clock) (floats : Floats) (usbs_map : Usbs) (disks_map : StdMap HardDiskInfo)
    → print_html clock floats usbs_map disks_map at_start
      ≡ usbs_report clock 1 usbs_map >>= λ usbs. disks_report floats disks_map >>= λ disks. done (
        start_html
            ++ (usbs
                ++ (before_hard_disks
                    ++ (disks ++ ((if any_disk disks_map then [] else no_disks) ++ end_html)))),
        at_start,
      )
unfolding print_html
print_html-report clock floats usbs_map disks_map =
    let end : Bool → Bytes = λ found. (if found then [] else no_disks) ++ end_html in
    let k₂ : (Bytes × Bool) × Globals → Outcome (Bytes × Globals) =
      λ x. done (x.0.0 ++ end (x.0.1), x.1) in
    let k₁ : Bytes × Globals → Outcome (Bytes × Globals) =
      λ x. disk_rows floats disks_map false (x.0 ++ before_hard_disks) (x.1) >>= k₂ in
    ap (λ m. m >>= k₁) (usb_rows-report clock 1 usbs_map start_html)
    ∙ >>=-assoc (usbs_report clock 1 usbs_map) (λ b. done (start_html ++ b, at_start)) k₁
    ∙ >>=-ap (usbs_report clock 1 usbs_map) (λ b.
      ap (λ m. m >>= k₂)
        (disk_rows-report floats disks_map false ((start_html ++ b) ++ before_hard_disks))
      ∙ >>=-assoc (disks_report floats disks_map)
          (λ d.
            done ((((start_html ++ b) ++ before_hard_disks) ++ d, any_disk disks_map), at_start))
          k₂
      ∙ >>=-ap (disks_report floats disks_map) (λ d.
        ap (λ x. done (x, at_start))
          (in_order start_html b before_hard_disks d (end (any_disk disks_map)))))
