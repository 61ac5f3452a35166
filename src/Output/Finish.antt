-- ===== src/Output/Finish.antt =====
-- When printHTML and printDisksMapInTerminal come to their end.
use storing_devices_logs_tfm.Base.{
  ℕ, zero, suc, ◌<◌, ◌≤◌, ◌^◌, true, false, Bool, ◌==◌, ltb, ◌≡◌, refl, arith, ◌⊎◌, inl, inr, ◌↔◌,
  [], ◌∷◌, ◌++◌, All, if◌then◌else◌, Bytes, Outcome, done, fault, ◌>>=◌, Finishes, Finishes-bind,
  Finishes-first, Bool-cases, >>=-eq-done,
}
use storing_devices_logs_tfm.StdMap.{StdMap}
use storing_devices_logs_tfm.Usb.{Usbs}
use storing_devices_logs_tfm.Disk.{HardDiskInfo}
use storing_devices_logs_tfm.Output.{at_start}
use storing_devices_logs_tfm.Output.Times.{Clock}
use storing_devices_logs_tfm.Output.Calendar.{IsCalendar, usbs_report-Finishes}
use storing_devices_logs_tfm.Output.Size.{Floats, human_readable_byte_count}
use storing_devices_logs_tfm.Output.Size.Digits.{
  IsInRange, human_readable_byte_count-digits, human_readable_byte_count-small,
}
use storing_devices_logs_tfm.Output.Html.{size_text, note_disk, disk_table, print_html}
use storing_devices_logs_tfm.Output.Report.{usbs_report, disk_report, disks_report}
use storing_devices_logs_tfm.Output.Rows.{print_html-report}
use storing_devices_logs_tfm.Output.Terminal.{size_line, print_disk, print_disks_map_in_terminal}

-- The disk is empty, or its size is not one of 3 to 999 bytes.
abbrev pub IsPrintable : HardDiskInfo → Type 0
IsPrintable i = (i.is_empty ≡ true) ⊎ ((i.size < 3) ⊎ (1000 ≤ i.size))

-- The sizes are those of an `unsigned long long`.
abbrev pub AreSizes : StdMap HardDiskInfo → Type 0
AreSizes m = All (λ (d : Bytes × HardDiskInfo). d.1.size < 2 ^ 64) m

abbrev pub ArePrintable : StdMap HardDiskInfo → Type 0
ArePrintable m = All (λ (d : Bytes × HardDiskInfo). IsPrintable (d.1)) m

Finishes-last :
    {A B : Type 0} (m : Outcome A) (f : A → Outcome B) (Q : Type 0)
    → Finishes (m >>= f)
    → ((a : A) → Finishes (f a) → Q)
    → Q
Finishes-last m f Q (b, e) h = let (a, k, r) = >>=-eq-done m f e in h a (b, r)

size-cases : (n : ℕ) → (n < 3) ⊎ (((3 ≤ n) × (n < 1000)) ⊎ (1000 ≤ n))
size-cases n = elim (Bool-cases (ltb n 3)) [
  | inl t ↦ inl (ground arith)
  | inr t ↦ elim (Bool-cases (ltb n 1000)) [
    | inl u ↦ inr (inl (ground arith))
    | inr u ↦ inr (inr (ground arith))
  ]
]

-- A printable size, and how a fault in one disk decides for the ones behind it.
both-Finishes :
    (row rest : Outcome Bytes) (f : Bytes → Bytes → Bytes) (P Q : Type 0)
    → Finishes row ↔ P
    → Finishes rest ↔ Q
    → Finishes (row >>= λ a. rest >>= λ b. done (f a b)) ↔ (P × Q)
both-Finishes (done a) (done b) f P Q h k =
    (λ x. (h.0 (a, refl), k.0 (b, refl)), λ x. (f a b, refl))
both-Finishes (done a) (fault e) f P Q h k =
    (λ (b, x). absurd (cc), λ x. let (b, y) = k.1 (x.1) in absurd (cc))
both-Finishes (fault e) rest f P Q h k =
    (λ (b, x). absurd (cc), λ x. let (b, y) = h.1 (x.0) in absurd (cc))

Finishes-map :
    {A B : Type 0} (m : Outcome A) (f : A → B) → Finishes (m >>= λ a. done (f a)) ↔ Finishes m
Finishes-map (done a) f = (λ x. (a, refl), λ x. (f a, refl))
Finishes-map (fault e) f = (λ (b, x). absurd (cc), λ (b, x). absurd (cc))

iff_trans : {P Q R : Type 0} → P ↔ Q → Q ↔ R → P ↔ R
iff_trans a b = (λ p. b.0 (a.0 p), λ r. a.1 (b.1 r))

-- A disk that is empty is skipped.
guarded-Finishes :
    (empty : Bool) (m : Outcome Bytes) (x : Bytes) (P : Type 0)
    → Finishes m ↔ P
    → Finishes (if empty then done x else m) ↔ ((empty ≡ true) ⊎ P)
guarded-Finishes true m x P h = (λ f. inl refl, λ p. (x, refl))
guarded-Finishes false m x P h =
    (λ f. inr (h.0 f), λ p. elim p [ inl e ↦ absurd (cc) | inr q ↦ h.1 q ])

module _ (floats : Floats) (r : IsInRange floats) where
  size-Finishes :
      (n : ℕ)
      → n < 2 ^ 64
      → Finishes (human_readable_byte_count floats n true) ↔ ((n < 3) ⊎ (1000 ≤ n))
  size-Finishes n b = elim (size-cases n) [
    | inl s ↦
        let e = (human_readable_byte_count-small floats n true (omega arith)).0 (omega arith) in
        (λ x. inl s, λ x. (_, e))
    | inr (inl (l, u)) ↦
        let e = (human_readable_byte_count-small floats n true u).1 l in
        (λ (t, x). absurd (cc), λ x. absurd (grind (arith, x, l, u)))
    | inr (inr l) ↦
        let (d, q, c, y, z, e, w, v) = human_readable_byte_count-digits floats n true r l b in
        (λ x. inr l, λ x. (_, e))
  ]

  size_text-Finishes :
      (n : ℕ) (kept : Bytes)
      → n < 2 ^ 64
      → Finishes (size_text floats n kept) ↔ ((n < 3) ⊎ (1000 ≤ n))
  unfolding size_text
  size_text-Finishes zero kept b = (λ x. inl (omega arith), λ x. (kept, refl))
  size_text-Finishes (suc n) kept b =
      let t : (suc n == 0) ≡ false = ground arith in rw t (size-Finishes (suc n) b)

  disk_report-Finishes :
      (path : Bytes) (i : HardDiskInfo)
      → i.size < 2 ^ 64
      → Finishes (disk_report floats path i) ↔ IsPrintable i
  unfolding disk_report note_disk
  disk_report-Finishes path i b =
      guarded-Finishes i.is_empty (note_disk floats path i at_start >>= λ g. done (disk_table g)) []
        ((i.size < 3) ⊎ (1000 ≤ i.size))
        (iff_trans (Finishes-map (note_disk floats path i at_start) disk_table) (
          iff_trans (Finishes-map (size_text floats i.size at_start.disk_size) _)
            (size_text-Finishes i.size at_start.disk_size b)))

  disks_report-Finishes :
      (m : StdMap HardDiskInfo) → AreSizes m → Finishes (disks_report floats m) ↔ ArePrintable m
  unfolding disks_report
  disks_report-Finishes [] b = (λ x. tt, λ x. ([], refl))
  disks_report-Finishes ((path, i) ∷ m) b =
      both-Finishes (disk_report floats path i) (disks_report floats m) (λ a c. a ++ c)
        (IsPrintable i) (ArePrintable m) (disk_report-Finishes path i (b.0))
        (disks_report-Finishes m (b.1))

  -- If the months of the library are those of the calendar, the logarithm gives one of the six
  -- prefixes and the sizes fit an unsigned long long, printHTML writes its report to the end
  -- exactly if no disk that is not empty has a size of 3 to 999 bytes.
  pub print_html-Finishes :
      (clock : Clock) (usbs_map : Usbs) (disks_map : StdMap HardDiskInfo)
      → IsCalendar clock
      → AreSizes disks_map
      → Finishes (print_html clock floats usbs_map disks_map at_start) ↔ ArePrintable disks_map
  print_html-Finishes clock usbs_map disks_map c b =
      let usbs = usbs_report clock 1 usbs_map in
      let disks = disks_report floats disks_map in
      let d = disks_report-Finishes disks_map b in
      rw (print_html-report clock floats usbs_map disks_map) (
        λ f.
            Finishes-last usbs _ (ArePrintable disks_map) f (λ a g. d.0 (Finishes-first disks _ g)),
        λ p.
            Finishes-bind usbs _ (usbs_report-Finishes clock c 1 usbs_map)
              (λ a. Finishes-bind disks _ (d.1 p) (λ x. (_, refl))),
      )

  size_line-Finishes : (n : ℕ) → n < 2 ^ 64 → Finishes (size_line floats n) ↔ ((n < 3) ⊎ (1000 ≤ n))
  unfolding size_line
  size_line-Finishes zero b = (λ x. inl (omega arith), λ x. (_, refl))
  size_line-Finishes (suc n) b =
      let t : (suc n == 0) ≡ false = ground arith in
      rw t (
        iff_trans (Finishes-map (human_readable_byte_count floats (suc n) true) _)
          (size-Finishes (suc n) b))

  print_disk-Finishes :
      (path : Bytes) (i : HardDiskInfo)
      → i.size < 2 ^ 64
      → Finishes (print_disk floats path i) ↔ IsPrintable i
  unfolding print_disk
  print_disk-Finishes path i b =
      guarded-Finishes i.is_empty _ [] ((i.size < 3) ⊎ (1000 ≤ i.size))
        (iff_trans (Finishes-map (size_line floats i.size) _) (size_line-Finishes i.size b))

  -- If the logarithm gives one of the six prefixes and the sizes fit an unsigned long long,
  -- printDisksMapInTerminal comes to its end exactly if no disk that is not empty has a size of 3
  -- to 999 bytes.
  pub print_disks_map_in_terminal-Finishes :
      (disks_map : StdMap HardDiskInfo)
      → AreSizes disks_map
      → Finishes (print_disks_map_in_terminal floats disks_map) ↔ ArePrintable disks_map
  unfolding print_disks_map_in_terminal
  print_disks_map_in_terminal-Finishes [] b = (λ x. tt, λ x. ([], refl))
  print_disks_map_in_terminal-Finishes ((path, i) ∷ m) b =
      both-Finishes (print_disk floats path i) (print_disks_map_in_terminal floats m)
        (λ a c. a ++ c) (IsPrintable i) (ArePrintable m) (print_disk-Finishes path i (b.0))
        (print_disks_map_in_terminal-Finishes m (b.1))
