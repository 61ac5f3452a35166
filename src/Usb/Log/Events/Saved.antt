-- ===== src/Usb/Log/Events/Saved.antt =====
-- The loop at the end of getUSBsInfo writes no time but those of the interfaces in use.
use storing_devices_logs_tfm.Base.{
  ◌≡◌, inl, inr, subst, arith, [], ◌∷◌, Bytes, equal, Bool-cases, Option-cases, All-append,
}
use storing_devices_logs_tfm.StdMap.{find, IsSorted}
use storing_devices_logs_tfm.StdMap.Lookup.{find-insert}
use storing_devices_logs_tfm.StdMap.Replace.{find-set}
use storing_devices_logs_tfm.StdMap.Same.{find_first, find_tail}
use storing_devices_logs_tfm.Usb.{UsbInterface, UsbInfo, Interfaces, Usbs}
use storing_devices_logs_tfm.Usb.Log.Save.{completed, fresh}
use storing_devices_logs_tfm.Usb.Log.Save.Reference.{record_interface, record_all}
use storing_devices_logs_tfm.Usb.Log.Events.Listed.{recorded_once, once_cases, once-IsSorted}
use storing_devices_logs_tfm.Usb.Log.Events.Sources.{IsSince, IsBetween, AreBetween}

module _ (P Q : Bytes → Type 0) where
  completed-IsBetween :
      (e : UsbInterface) (u : UsbInfo)
      → P e.connection_time
      → IsBetween P Q u
      → IsBetween P Q (completed e u)
  unfolding completed
  completed-IsBetween e u c h =
      (All-append P u.connection_times (e.connection_time ∷ []) h.0 (c, tt), h.1)

  fresh-IsBetween : (e : UsbInterface) → P e.connection_time → IsBetween P Q (fresh e)
  unfolding fresh
  fresh-IsBetween e c = ((c, tt), tt)

  recorded-AreBetween :
      (e : UsbInterface) (usbs : Usbs)
      → IsSorted usbs
      → P e.connection_time
      → AreBetween P Q (λ k. find k usbs)
      → AreBetween P Q (λ k. find k (record_interface e usbs))
  recorded-AreBetween e usbs s c between k u f = elim (Option-cases (find e.serial_number usbs)) [
    | inr (w, n) ↦
        let law = find-set k e.serial_number (completed e w) w usbs n in
        elim (Bool-cases (equal e.serial_number k)) [
          | inr t ↦ between k u (ground (arith, n, law, t, f))
          | inl t ↦
              let same : completed e w ≡ u = ground (arith, n, law, t, f) in
              subst (IsBetween P Q) same (completed-IsBetween e w c (between e.serial_number w n))
        ]
    | inl n ↦
        let law = find-insert k e.serial_number (fresh e) usbs s in
        elim (Bool-cases e.is_storage_device) [
          | inr t ↦ between k u (ground (arith, n, t, f))
          | inl st ↦ elim (Bool-cases (equal e.serial_number k)) [
            | inr t ↦ between k u (ground (arith, n, law, t, st, f))
            | inl t ↦
                let same : fresh e ≡ u = ground (arith, n, law, t, st, f) in
                subst (IsBetween P Q) same (fresh-IsBetween e c)
          ]
        ]
  ]

  -- The interfaces behind the first one.
  tail-IsSince :
      (k : Bytes) (e : UsbInterface) (m : Interfaces)
      → IsSorted ((k, e) ∷ m)
      → IsSince P (λ j. find j ((k, e) ∷ m))
      → IsSince P (λ j. find j m)
  tail-IsSince k e m s since j x f = since j x (ground (arith, find_tail j k e m s, f))

  pub record_all-AreBetween :
      (m : Interfaces) (usbs : Usbs)
      → IsSorted m
      → IsSorted usbs
      → IsSince P (λ k. find k m)
      → AreBetween P Q (λ k. find k usbs)
      → AreBetween P Q (λ k. find k (record_all m usbs))
  record_all-AreBetween [] usbs s t since between = between
  record_all-AreBetween ((k, e) ∷ m) usbs s t since between =
      record_all-AreBetween m (recorded_once e usbs) s.1 (once-IsSorted e usbs t)
        (tail-IsSince k e m s since)
        (once_cases (λ m. AreBetween P Q (λ k. find k m)) e usbs between
          (λ used. recorded-AreBetween e usbs t (since k e (find_first k e m) used) between))
