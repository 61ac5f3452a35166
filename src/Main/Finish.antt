-- ===== src/Main/Finish.antt =====
-- When the program comes to its end, and what it leaves then.
use storing_devices_logs_tfm.Base.{
  ◌<◌, ltb, ◌≡◌, refl, arith, ◌⊎◌, inl, inr, ◌↔◌, All, Outcome, done, fault, ◌>>=◌, Finishes,
  Finishes-bind, Finishes-first, Ends-Finishes, Bool-cases,
}
use storing_devices_logs_tfm.Usb.Information.{IsReadable}
use storing_devices_logs_tfm.Usb.Log.{get_usbs_info, lines_of}
use storing_devices_logs_tfm.Usb.Log.Run.{AreListed, get_usbs_info-Ends}
use storing_devices_logs_tfm.Usb.Log.Save.{reusing}
use storing_devices_logs_tfm.Output.{at_start}
use storing_devices_logs_tfm.Output.Html.{print_html}
use storing_devices_logs_tfm.Output.Terminal.{print_disks_map_in_terminal}
use storing_devices_logs_tfm.Output.Size.Digits.{IsInRange}
use storing_devices_logs_tfm.Output.Calendar.{IsCalendar}
use storing_devices_logs_tfm.Output.Finish.{
  AreSizes, ArePrintable, print_html-Finishes, print_disks_map_in_terminal-Finishes,
}
use storing_devices_logs_tfm.Main.{Reading, Machine, disks_of, main}

-- The numbers in the log can be read, and the sizes are those of an `unsigned long long`.
pub record IsUsual (r : Reading) : Type 0 where
  pub readable : All IsReadable (lines_of r.log)
  pub sizes : AreSizes (disks_of r)

usbs-Finishes : (r : Reading) → IsUsual r → Finishes (get_usbs_info reusing r.log)
usbs-Finishes r u =
    Ends-Finishes AreListed (All IsReadable (lines_of r.log)) (get_usbs_info reusing r.log)
      (get_usbs_info-Ends r.log) u.readable

-- The parts of the run of a privileged user, one after the other.
chain-Finishes :
    {A B C D E : Type 0} (a : Outcome A) (b : Outcome B) (c : Outcome C) (d : C → Outcome D)
    (f : A → B → C → D → E) (P Q : Type 0)
    → Finishes a
    → Finishes b ↔ P
    → Finishes c
    → ((x : C) → Finishes (d x) ↔ Q)
    → Finishes (a >>= λ x. b >>= λ y. c >>= λ z. d z >>= λ w. done (f x y z w)) ↔ (P × Q)
chain-Finishes (done a) (done b) (done c) d f P Q ha hb hc hd = (
  λ r. (hb.0 (b, refl), (hd c).0 (Finishes-first (d c) _ r)),
  λ (p, q). Finishes-bind (d c) _ ((hd c).1 q) (λ w. (_, refl)),
)
chain-Finishes (done a) (fault e) c d f P Q ha hb hc hd =
    (λ (r, x). absurd (cc), λ (p, q). let (b, y) = hb.1 p in absurd (cc))
chain-Finishes (done a) (done b) (fault e) d f P Q ha hb (c, x) hd = absurd (cc)
chain-Finishes (fault e) b c d f P Q (a, x) hb hc hd = absurd (cc)

-- If the allocator hands the freed node back, the months of the library are those of the calendar,
-- the logarithm gives one of the six prefixes, the numbers in both logs can be read and the sizes
-- fit an unsigned long long, then the program comes to its end exactly if the user is not root, or
-- no identified disk of the two readings has a size of 3 to 999 bytes.
pub main-Finishes :
    (m : Machine)
    → m.allocator ≡ reusing
    → IsCalendar m.clock
    → IsInRange m.floats
    → IsUsual m.for_terminal
    → IsUsual m.for_report
    → Finishes (main m) ↔ (
        (0 < m.geteuid)
        ⊎ (ArePrintable (disks_of m.for_terminal) × ArePrintable (disks_of m.for_report)))
unfolding main
main-Finishes m a c r t u = elim (Bool-cases (ltb 0 m.geteuid)) [
  | inl e ↦ rw e (λ x. inl (ground arith), λ p. (_, refl))
  | inr e ↦
      let h =
        chain-Finishes (get_usbs_info reusing m.for_terminal.log)
          (print_disks_map_in_terminal m.floats (disks_of m.for_terminal))
          (get_usbs_info reusing m.for_report.log)
          (λ usbs. print_html m.clock m.floats usbs (disks_of m.for_report) at_start) _
          (ArePrintable (disks_of m.for_terminal)) (ArePrintable (disks_of m.for_report))
          (usbs-Finishes m.for_terminal t)
          (print_disks_map_in_terminal-Finishes m.floats r (disks_of m.for_terminal) t.sizes)
          (usbs-Finishes m.for_report u)
          (λ usbs. print_html-Finishes m.floats r m.clock usbs (disks_of m.for_report) c u.sizes) in
      rw (e, a) (λ x. inr (h.0 x), λ p. elim p [ inl l ↦ absurd (ground arith) | inr q ↦ h.1 q ])
]
