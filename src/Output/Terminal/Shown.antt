-- ===== src/Output/Terminal/Shown.antt =====
-- Which devices and disks the terminal shows, and under which numbers.
use storing_devices_logs_tfm.Base.{
  ℕ, suc, ◌+◌, true, false, Bool, ◌≡◌, refl, sym, ap, ◌∙◌, arith, [], ◌∷◌, ◌++◌, append_assoc,
  length, if◌then◌else◌, Bytes, Outcome, done, fault, ◌>>=◌,
}
use storing_devices_logs_tfm.StdMap.{StdMap}
use storing_devices_logs_tfm.Usb.{UsbInfo, Usbs}
use storing_devices_logs_tfm.Disk.{HardDiskInfo}
use storing_devices_logs_tfm.Output.Size.{Floats}
use storing_devices_logs_tfm.Output.Terminal.{
  print_usb, print_usbs_from, print_usbs_map_in_terminal, print_disk, print_disks_map_in_terminal,
}

from_append :
    (n : ℕ) (a b : Usbs)
    → print_usbs_from n (a ++ b) ≡ print_usbs_from n a ++ print_usbs_from (n + length a) b
unfolding print_usbs_from
from_append n [] b = ap (λ k. print_usbs_from k b) (omega arith)
from_append n ((key, i) ∷ a) b =
    let rest = print_usbs_from (n + 1) a in
    let step : n + 1 + length a ≡ n + suc (length a) = omega arith in
    ap (λ s. print_usb n i ++ s) (from_append (n + 1) a b)
    ∙ sym (append_assoc (print_usb n i) rest (print_usbs_from (n + 1 + length a) b))
    ∙ ap (λ k. (print_usb n i ++ rest) ++ print_usbs_from k b) step

-- A device is shown once, with its place in the map counted from 1 as its number, behind the
-- devices before it and in front of the others.
pub print_usbs_map_in_terminal-place :
    (a b : Usbs) (key : Bytes) (i : UsbInfo)
    → print_usbs_map_in_terminal (a ++ ((key, i) ∷ b))
      ≡ print_usbs_map_in_terminal a
        ++ (print_usb (1 + length a) i ++ print_usbs_from (1 + length a + 1) b)
unfolding print_usbs_map_in_terminal print_usbs_from
print_usbs_map_in_terminal-place a b key i = from_append 1 a ((key, i) ∷ b)

-- The disks that were identified.
abbrev pub identified_disks : StdMap HardDiskInfo → StdMap HardDiskInfo
identified_disks [] = []
identified_disks ((path, i) ∷ disks_map) =
    if i.is_empty then identified_disks disks_map else (path, i) ∷ identified_disks disks_map

skip : (m : Outcome Bytes) → m >>= (λ rest. done rest) ≡ m
skip (done b) = refl
skip (fault e) = refl

print_disk-is_empty :
    (floats : Floats) (path : Bytes) (i : HardDiskInfo)
    → i.is_empty ≡ true
    → print_disk floats path i ≡ done []
unfolding print_disk
print_disk-is_empty floats path i e = rw e

skip_or_show :
    (floats : Floats) (path : Bytes) (i : HardDiskInfo) (m m' : StdMap HardDiskInfo) (empty : Bool)
    → i.is_empty ≡ empty
    → print_disks_map_in_terminal floats m ≡ print_disks_map_in_terminal floats m'
    → print_disks_map_in_terminal floats ((path, i) ∷ m)
      ≡ print_disks_map_in_terminal floats (if empty then m' else (path, i) ∷ m')
unfolding print_disks_map_in_terminal
skip_or_show floats path i m m' true e h =
    ap (λ row. row >>= λ out. print_disks_map_in_terminal floats m >>= λ rest. done (out ++ rest))
      (print_disk-is_empty floats path i e)
    ∙ skip (print_disks_map_in_terminal floats m)
    ∙ h
skip_or_show floats path i m m' false e h =
    ap (λ t. print_disk floats path i >>= λ out. t >>= λ rest. done (out ++ rest)) h

-- printDisksMapInTerminal does on a map what it does on the disks of it that are not empty.
pub print_disks_map_in_terminal-identified :
    (floats : Floats) (disks_map : StdMap HardDiskInfo)
    → print_disks_map_in_terminal floats disks_map
      ≡ print_disks_map_in_terminal floats (identified_disks disks_map)
unfolding print_disks_map_in_terminal
print_disks_map_in_terminal-identified floats [] = refl
print_disks_map_in_terminal-identified floats ((path, i) ∷ m) =
    skip_or_show floats path i m (identified_disks m) i.is_empty refl
      (print_disks_map_in_terminal-identified floats m)
