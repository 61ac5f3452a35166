-- ===== src/Libudev/Release.antt =====
-- The objects that the enumeration of devices uses.
use storing_devices_logs_tfm.Base.{
  ℕ, List, [], ◌∷◌, Option, none, some, Bytes, text, ◌++◌, ◌≡◌, refl, ◌∙◌, arith, true,
  Option-cases, inl, inr,
}
use storing_devices_logs_tfm.Handles.{
  Use, access, release, is_live, without, live_after, live_after-append, IsBalanced,
}
use storing_devices_logs_tfm.Libudev.{
  UdevLibrary, name_uses, serial_uses, device_uses, made_uses, entry_uses, entries_uses,
  enumerate_uses, list_devices, enumerated,
}

is_live_first : (h : ℕ) (live : List ℕ) → is_live h (h ∷ live) ≡ true
unfolding is_live
is_live_first h live = ground arith

is_live_behind : (h x : ℕ) (live : List ℕ) → is_live h live ≡ true → is_live h (x ∷ live) ≡ true
unfolding is_live
is_live_behind h x live e = ground (arith, e)

without_first : (h : ℕ) (live : List ℕ) → without h (h ∷ live) ≡ live
unfolding without
without_first h live = ground arith

-- Two uses of objects that stay live, one behind the other.
keeps_both :
    (a b : List Use) (live : List ℕ)
    → live_after a live ≡ some live
    → live_after b live ≡ some live
    → live_after (a ++ b) live ≡ some live
keeps_both a b live h k = live_after-append a b live live h ∙ k

module _ (lib : UdevLibrary) (e d : ℕ) (live : List ℕ) (listed : is_live e live ≡ true) where
  name_keeps : (o : Option Bytes) → live_after (name_uses d o) (d ∷ live) ≡ some (d ∷ live)
  unfolding name_uses live_after
  name_keeps none = refl
  name_keeps (some name) = ground (arith, is_live_first d live)

  serial_keeps : (o : Option Bytes) → live_after (serial_uses e d o) (d ∷ live) ≡ some (d ∷ live)
  unfolding serial_uses live_after
  serial_keeps none = refl
  serial_keeps (some serial) = ground (arith, is_live_first d live, is_live_behind e d live listed)

  release_leaves : live_after (release d ∷ []) (d ∷ live) ≡ some live
  unfolding live_after
  release_leaves = ground (arith, is_live_first d live, without_first d live)

  device_leaves : live_after (device_uses lib e d) live ≡ some live
  unfolding device_uses live_after
  device_leaves =
      let name = lib.get_property_value d (text "DEVNAME") in
      let serial = lib.get_property_value d (text "ID_SERIAL_SHORT") in
      let printed =
        live_after-append (name_uses d name) (serial_uses e d serial ++ release d ∷ []) (d ∷ live)
          (d ∷ live) (name_keeps name)
        ∙ live_after-append (serial_uses e d serial) (release d ∷ []) (d ∷ live) (d ∷ live)
            (serial_keeps serial)
        ∙ release_leaves in
      ground (arith, is_live_first d live, printed)

module _ (lib : UdevLibrary) (udev e : ℕ) (live : List ℕ) (held : is_live udev live ≡ true)
    (listed : is_live e live ≡ true) where
  made_keeps : (o : Option ℕ) → live_after (made_uses lib e o) live ≡ some live
  unfolding made_uses
  made_keeps none = unfold live_after in refl
  made_keeps (some d) = device_leaves lib e d live listed

  next_keeps : live_after (access e ∷ []) live ≡ some live
  unfolding live_after
  next_keeps = ground (arith, listed)

  entry_keeps : (o : Option ℕ) → live_after (entry_uses lib udev e o) live ≡ some live
  unfolding entry_uses live_after
  entry_keeps o = ground (
    arith,
    held,
    listed,
    keeps_both (made_uses lib e o) (access e ∷ []) live (made_keeps o) next_keeps,
  )

  entries_keep : (paths : List Bytes) → live_after (entries_uses lib udev e paths) live ≡ some live
  unfolding entries_uses
  entries_keep [] = unfold live_after in refl
  entries_keep (path ∷ paths) =
      keeps_both (entry_uses lib udev e (lib.device_new_from_syspath path)) _ live
        (entry_keeps (lib.device_new_from_syspath path)) (entries_keep paths)

module _ (lib : UdevLibrary) (udev : ℕ) where
  enumeration_keeps :
      (o : Option ℕ) → live_after (enumerate_uses lib udev o) (udev ∷ []) ≡ some (udev ∷ [])
  unfolding enumerate_uses live_after
  enumeration_keeps none = ground (arith, is_live_first udev [])
  enumeration_keeps (some e) =
      let live = e ∷ udev ∷ [] in
      let paths = enumerated lib (some e) in
      let held = is_live_behind udev e (udev ∷ []) (is_live_first udev []) in
      let listed = is_live_first e (udev ∷ []) in
      ground (
        arith,
        is_live_first udev [],
        listed,
        without_first e (udev ∷ []),
        live_after-append (entries_uses lib udev e paths) (release e ∷ []) live live
            (entries_keep lib udev e live held listed paths),
      )

-- Whatever the library answers, the program on libudev releases each object that it was handed
-- once, and uses none before it has it or behind its release, where reading an entry or its path
-- is a use of the enumeration, and printing a property a use of its device.
pub list_devices-IsBalanced : (lib : UdevLibrary) → IsBalanced (list_devices lib).uses
unfolding list_devices live_after
list_devices-IsBalanced lib = elim (Option-cases lib.udev_new) [
  | inl n ↦ ground (arith, n)
  | inr (udev, n) ↦ ground (
    arith,
    n,
    is_live_first udev [],
    without_first udev [],
    live_after-append (enumerate_uses lib udev lib.udev_enumerate_new) (release udev ∷ [])
        (udev ∷ []) (udev ∷ []) (enumeration_keeps lib udev lib.udev_enumerate_new),
  )
]
