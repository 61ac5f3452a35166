-- ===== src/Usb/Log/Save/Reference.antt =====
-- What saveInterfacesInfoInUSBsMap computes where its iterator survives: each interface in use is
-- entered in the map of devices, in the order of the interfaces' names, and is emptied.
use storing_devices_logs_tfm.Base.{
  true, ◌≡◌, refl, arith, [], ◌∷◌, ◌++◌, some, none, Bytes, done, if◌then◌else◌, inl, inr,
  Option-cases, equal_iff, equal_refl, less, less_irrefl,
}
use storing_devices_logs_tfm.StdMap.{find, insert, IsSorted, StdMap, Above}
use storing_devices_logs_tfm.StdMap.Order.{insert-IsSorted}
use storing_devices_logs_tfm.StdMap.Replace.{set, replace-set, set-IsSorted}
use storing_devices_logs_tfm.Usb.{UsbInterface, Interfaces, Usbs, initialized}
use storing_devices_logs_tfm.Usb.Log.Save.{completed, fresh, save_interface}

abbrev pub record_interface : UsbInterface → Usbs → Usbs
record_interface e usbs = elim (find e.serial_number usbs) [
  | some u ↦ set e.serial_number (completed e u) usbs
  | none ↦ if e.is_storage_device then insert e.serial_number (fresh e) usbs else usbs
]

abbrev pub record_all : Interfaces → Usbs → Usbs
record_all [] usbs = usbs
record_all ((k, e) ∷ m) usbs = record_all m (if e.is_empty then usbs else record_interface e usbs)

abbrev pub emptied : UsbInterface → UsbInterface
emptied e = if e.is_empty then e else initialized

abbrev pub empty_all : Interfaces → Interfaces
empty_all [] = []
empty_all ((k, e) ∷ m) = (k, emptied e) ∷ empty_all m

pub save_interface-record_interface :
    (e : UsbInterface) (usbs : Usbs)
    → IsSorted usbs
    → save_interface e usbs ≡ done (record_interface e usbs)
unfolding save_interface
save_interface-record_interface e usbs s = elim (Option-cases (find e.serial_number usbs)) [
  | inl n ↦ ground (arith, n)
  | inr (u, n) ↦ ground (arith, n, replace-set e.serial_number (completed e u) u usbs s n)
]

pub record_interface-IsSorted :
    (e : UsbInterface) (usbs : Usbs) → IsSorted usbs → IsSorted (record_interface e usbs)
record_interface-IsSorted e usbs s = elim (Option-cases (find e.serial_number usbs)) [
  | inl n ↦ ground (arith, n, s, insert-IsSorted e.serial_number (fresh e) usbs s)
  | inr (u, n) ↦ ground (arith, n, set-IsSorted e.serial_number (completed e u) usbs s)
]

module _ {V : Type 0} where
  Above-at :
      (j k : Bytes) (v : V) (pre rest : StdMap V) → Above j (pre ++ (k, v) ∷ rest) → less j k ≡ true
  Above-at j k v [] rest a = a.0
  Above-at j k v ((i, w) ∷ pre) rest a = Above-at j k v pre rest a.1

  pub not_before :
      (k : Bytes) (v : V) (pre rest : StdMap V)
      → IsSorted (pre ++ (k, v) ∷ rest)
      → find k pre ≡ none
  unfolding find
  not_before k v [] rest s = refl
  not_before k v ((j, w) ∷ pre) rest s = ground (
    arith,
    not_before k v pre rest s.1,
    Above-at j k v pre rest s.0,
    equal_iff j k,
    less_irrefl k,
  )

  pub set-append :
      (k : Bytes) (v w : V) (pre rest : StdMap V)
      → find k pre ≡ none
      → set k v (pre ++ (k, w) ∷ rest) ≡ pre ++ (k, v) ∷ rest
  unfolding find
  set-append k v w [] rest n = ground (arith, equal_refl k)
  set-append k v w ((j, u) ∷ pre) rest n = ground (arith, set-append k v w pre rest)

  pub find-append :
      (k : Bytes) (w : V) (pre rest : StdMap V)
      → find k pre ≡ none
      → find k (pre ++ (k, w) ∷ rest) ≡ some w
  unfolding find
  find-append k w [] rest n = ground (arith, equal_refl k)
  find-append k w ((j, u) ∷ pre) rest n = ground (arith, find-append k w pre rest)
