-- ===== src/Usb/Log/Events/Listed.antt =====
-- The loop at the end of getUSBsInfo, on a device that is in the map or still on its port.
use mathlib.Core.List.{mem-append_left, mem-append_right, mem-cons_self}
use storing_devices_logs_tfm.Base.{
  true, false, ◌≡◌, refl, subst, sym, ap, ◌∙◌, arith, [], ◌∷◌, ◌++◌, Bytes, equal, equal_iff,
  if◌then◌else◌, Bool-cases, Option-cases, inl, inr,
}
use storing_devices_logs_tfm.StdMap.{find, IsSorted}
use storing_devices_logs_tfm.StdMap.Lookup.{find-insert}
use storing_devices_logs_tfm.StdMap.Replace.{find-set}
use storing_devices_logs_tfm.Usb.{UsbInterface, UsbInfo, Interfaces, Usbs}
use storing_devices_logs_tfm.Usb.Log.Save.{completed, fresh}
use storing_devices_logs_tfm.Usb.Log.Save.Reference.{
  record_interface, record_all, record_interface-IsSorted,
}
use storing_devices_logs_tfm.Usb.Log.Events.Pending.{IsPlugged, IsRecorded}

-- A device in the map has the time among those of its connections.
abbrev pub IsListed : Bytes → Usbs → Type 0
IsListed time usbs = IsRecorded time (λ k. find k usbs)

completed_times :
    (e : UsbInterface) (u : UsbInfo)
    → (completed e u).connection_times ≡ u.connection_times ++ e.connection_time ∷ []
unfolding completed
completed_times e u = refl

fresh_times : (e : UsbInterface) → (fresh e).connection_times ≡ e.connection_time ∷ []
unfolding fresh
fresh_times e = refl

module _ (time : Bytes) (e : UsbInterface) (usbs : Usbs) (sorted : IsSorted usbs) where
  record_interface_keeps : IsListed time usbs → IsListed time (record_interface e usbs)
  record_interface_keeps r = elim (Option-cases (find e.serial_number usbs)) [
    | inl n ↦ record {
      serial_number = r.serial_number;
      info = r.info;
      listed = ground (
        arith,
        n,
        r.listed,
        find-insert r.serial_number e.serial_number (fresh e) usbs sorted,
        equal_iff e.serial_number r.serial_number,
      );
      connected = r.connected;
    }
    | inr (u, n) ↦ elim (Bool-cases (equal e.serial_number r.serial_number)) [
      | inr h ↦ record {
        serial_number = r.serial_number;
        info = r.info;
        listed = ground (
          arith,
          n,
          h,
          r.listed,
          find-set r.serial_number e.serial_number (completed e u) u usbs n,
        );
        connected = r.connected;
      }
      | inl h ↦
          let same : r.info ≡ u =
            ground (arith, n, r.listed, (equal_iff e.serial_number r.serial_number).0 h) in
          record {
            serial_number = r.serial_number;
            info = completed e u;
            listed =
                ground
                  (arith, n, h, find-set r.serial_number e.serial_number (completed e u) u usbs n);
            connected =
                rw (completed_times e u, ← same)
                  (mem-append_left (e.connection_time ∷ []) r.connected);
          }
    ]
  ]

  record_interface_lists :
      e.is_storage_device ≡ true
      → e.connection_time ≡ time
      → IsListed time (record_interface e usbs)
  record_interface_lists stores since = elim (Option-cases (find e.serial_number usbs)) [
    | inl n ↦ record {
      serial_number = e.serial_number;
      info = fresh e;
      listed = ground (
        arith,
        n,
        stores,
        find-insert e.serial_number e.serial_number (fresh e) usbs sorted,
        equal_iff e.serial_number e.serial_number,
      );
      connected = rw (fresh_times e, ← since) mem-cons_self;
    }
    | inr (u, n) ↦ record {
      serial_number = e.serial_number;
      info = completed e u;
      listed = ground (
        arith,
        n,
        find-set e.serial_number e.serial_number (completed e u) u usbs n,
        equal_iff e.serial_number e.serial_number,
      );
      connected =
          rw (completed_times e u, ← since) (mem-append_right u.connection_times mem-cons_self);
    }
  ]

-- An interface that is passed over or recorded.
abbrev pub recorded_once : UsbInterface → Usbs → Usbs
recorded_once e usbs = if e.is_empty then usbs else record_interface e usbs

once_used :
    (e : UsbInterface) (usbs : Usbs)
    → e.is_empty ≡ false
    → recorded_once e usbs ≡ record_interface e usbs
once_used e usbs h = simp (h)

once_empty : (e : UsbInterface) (usbs : Usbs) → e.is_empty ≡ true → recorded_once e usbs ≡ usbs
once_empty e usbs h = simp (h)

pub once_cases :
    (P : Usbs → Type 0) (e : UsbInterface) (usbs : Usbs)
    → P usbs
    → (e.is_empty ≡ false → P (record_interface e usbs))
    → P (recorded_once e usbs)
once_cases P e usbs x y = elim (Bool-cases e.is_empty) [
  | inl h ↦ subst P (sym (once_empty e usbs h)) x
  | inr h ↦ subst P (sym (once_used e usbs h)) (y h)
]

pub once-IsSorted :
    (e : UsbInterface) (usbs : Usbs) → IsSorted usbs → IsSorted (recorded_once e usbs)
once-IsSorted e usbs s = once_cases IsSorted e usbs s (λ used. record_interface-IsSorted e usbs s)

once_keeps :
    (time : Bytes) (e : UsbInterface) (usbs : Usbs)
    → IsSorted usbs
    → IsListed time usbs
    → IsListed time (recorded_once e usbs)
once_keeps time e usbs s r =
    once_cases (IsListed time) e usbs r (λ used. record_interface_keeps time e usbs s r)

pub record_all_keeps :
    (time : Bytes) (m : Interfaces) (usbs : Usbs)
    → IsSorted usbs
    → IsListed time usbs
    → IsListed time (record_all m usbs)
record_all_keeps time [] usbs s r = r
record_all_keeps time ((k, e) ∷ m) usbs s r =
    record_all_keeps time m (recorded_once e usbs) (once-IsSorted e usbs s)
      (once_keeps time e usbs s r)

pub record_all_lists :
    (time k : Bytes) (m : Interfaces) (usbs : Usbs)
    → IsSorted usbs
    → IsPlugged time k (λ j. find j m)
    → IsListed time (record_all m usbs)
unfolding find
record_all_lists time k [] usbs s p = absurd (cc (p.here))
record_all_lists time k ((j, e) ∷ m) usbs s p = elim (Bool-cases (equal j k)) [
  | inr h ↦ record_all_lists time k m (recorded_once e usbs) (once-IsSorted e usbs s) (record {
    device = p.device;
    here = ground (arith, h, p.here);
    used = p.used;
    storage = p.storage;
    since = p.since;
  })
  | inl h ↦
      let same : e ≡ p.device = ground (arith, h, p.here) in
      let used : e.is_empty ≡ false = ap (λ (x : UsbInterface). x.is_empty) same ∙ p.used in
      let stores : e.is_storage_device ≡ true =
        ap (λ (x : UsbInterface). x.is_storage_device) same ∙ p.storage in
      let since : e.connection_time ≡ time =
        ap (λ (x : UsbInterface). x.connection_time) same ∙ p.since in
      record_all_keeps time m (recorded_once e usbs) (once-IsSorted e usbs s) (
        subst (IsListed time) (sym (once_used e usbs used))
          (record_interface_lists time e usbs s stores since))
]
