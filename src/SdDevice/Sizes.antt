-- ===== src/SdDevice/Sizes.antt =====
-- The sizes that the program on sd-device prints, and the list that it uses.
use storing_devices_logs_tfm.Base.{
  ℕ, suc, Option, ◌^◌, ◌<◌, ◌≡◌, refl, ap, sym, ◌∙◌, arith, true, [], ◌∷◌, ◌++◌, some, none, List,
  Bytes, text, equal, Bool, false, All, if◌then◌else◌,
}
use storing_devices_logs_tfm.Regex.{digit, in_class}
use storing_devices_logs_tfm.Usb.Text.{digits_value, skip_spaces}
use storing_devices_logs_tfm.Decimal.{natural}
use storing_devices_logs_tfm.Decimal.RoundTrip.{digits_onto-cons, digits_value-digits_onto}
use storing_devices_logs_tfm.Handles.{
  release, is_live, without, live_after, live_after-append, IsBalanced,
}
use storing_devices_logs_tfm.SdDevice.{
  SdDevice, SdLibrary, magnitude, signed_digits, strtoull, size_lines, device_output,
  devices_output, size_uses, type_uses, loop_uses, list_disks,
}

strtoull-digits :
    (d : ℕ) (s : Bytes)
    → in_class digit d ≡ true
    → strtoull (d ∷ s) ≡ magnitude (digits_value 0 (d ∷ s))
unfolding strtoull skip_spaces signed_digits
strtoull-digits d s h = ground arith

-- The number of a decimal text below 2 ^ 64.
pub strtoull-natural : (n : ℕ) → n < 2 ^ 64 → strtoull (natural n) ≡ n
unfolding natural magnitude
strtoull-natural n h =
    let (d, ds, e, k) = digits_onto-cons (suc n) n [] (omega arith) in
    let v : digits_value 0 (d ∷ ds) ≡ n =
      ap (digits_value 0) (sym e)
      ∙ digits_value-digits_onto (suc n) n [] (omega arith)
      ∙ unfold digits_value in refl in
    rw e (strtoull-digits d ds k ∙ rw v (ground arith))

-- The attribute is a decimal number below 2 ^ 64.
pub record HasSize (dev : SdDevice) : Type 0 where
  pub sectors : ℕ
  pub is_size : dev.get_sysattr_value (text "size") ≡ some (natural sectors)
  pub fits : sectors < 2 ^ 64

abbrev pub is_disk : SdDevice → Bool
is_disk dev = elim dev.get_devtype [ none ↦ false | some t ↦ equal t (text "disk") ]

-- The lines for the disks, with a given number for each device.
abbrev pub disk_lines : (devices : List SdDevice) → All HasSize devices → Bytes
disk_lines [] sizes = []
disk_lines (dev ∷ devices) (size, sizes) =
    (if is_disk dev
      then text "Device: "
        ++ (dev.get_sysname
            ++ (b'\n' ∷ (text "Size: " ++ (natural size.sectors ++ (text " bytes" ++ b'\n' ∷ [])))))
      else [])
    ++ disk_lines devices sizes

devices_output-disk_lines :
    (devices : List SdDevice) (sizes : All HasSize devices)
    → devices_output devices ≡ disk_lines devices sizes
unfolding devices_output device_output size_lines
devices_output-disk_lines [] sizes = refl
devices_output-disk_lines (dev ∷ devices) (size, sizes) = ground (
  arith,
  size.is_size,
  strtoull-natural size.sectors size.fits,
  devices_output-disk_lines devices sizes,
)

-- The loop leaves the list live.
module _ (list : ℕ) where
  size_keeps : (o : Option Bytes) → live_after (size_uses list o) (list ∷ []) ≡ some (list ∷ [])
  unfolding size_uses live_after is_live
  size_keeps none = refl
  size_keeps (some size_str) = ground arith

  type_keeps :
      (dev : SdDevice) (o : Option Bytes)
      → live_after (type_uses list dev o) (list ∷ []) ≡ some (list ∷ [])
  unfolding type_uses live_after is_live
  type_keeps dev none = refl
  type_keeps dev (some devtype) = ground (arith, size_keeps (dev.get_sysattr_value (text "size")))

  loop_keeps :
      (devices : List SdDevice) → live_after (loop_uses list devices) (list ∷ []) ≡ some (list ∷ [])
  unfolding loop_uses live_after is_live
  loop_keeps [] = ground arith
  loop_keeps (dev ∷ devices) = ground (
    arith,
    live_after-append (type_uses list dev dev.get_devtype) (loop_uses list devices) (list ∷ [])
        (list ∷ []) (type_keeps dev dev.get_devtype),
    loop_keeps devices,
  )

  loop_released :
      (devices : List SdDevice)
      → live_after (loop_uses list devices ++ release list ∷ []) (list ∷ []) ≡ some []
  unfolding live_after is_live without
  loop_released devices = ground (
    arith,
    live_after-append (loop_uses list devices) (release list ∷ []) (list ∷ []) (list ∷ [])
        (loop_keeps devices),
  )

-- If the list is made and each device has a size that is a decimal number below 2 ^ 64, the
-- program on sd-device prints, for the devices of the type disk and in their order, the name and
-- that number as bytes, returns 0, and releases the list once, behind its last use.
pub list_disks-disk_lines :
    (lib : SdLibrary) (list : ℕ) (devices : List SdDevice) (sizes : All HasSize devices)
    → lib.list_new ≡ some list
    → lib.list_by_subsystem (text "block") ≡ some devices
    → ((list_disks lib).status ≡ 0)
      × ((list_disks lib).printed ≡ disk_lines devices sizes)
      × IsBalanced (list_disks lib).uses
unfolding list_disks live_after is_live without
list_disks-disk_lines lib list devices sizes a b =
    ground (arith, a, b, devices_output-disk_lines devices sizes, loop_released list devices)

-- The other ends of the program release the list too, if there is one.
list_disks_failed :
    (lib : SdLibrary)
    → lib.list_by_subsystem (text "block") ≡ none
    → ((list_disks lib).status ≡ 1) × IsBalanced (list_disks lib).uses
unfolding list_disks live_after is_live without
list_disks_failed lib b = ground (arith, b)
