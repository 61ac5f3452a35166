-- ===== src/Usb/Log/Events/Pending.antt =====
-- A storage device on a port, followed through the events of a log.
use mathlib.Core.List.{Mem, mem-append_left, mem-append_right, mem-cons_self}
use storing_devices_logs_tfm.Base.{
  true, false, ◌≡◌, ◌≢◌, ◌⊎◌, inl, inr, refl, subst, sym, ap, ◌∙◌, arith, List, [], ◌∷◌, some, none,
  Option, Bytes, equal, equal_iff, Bool-cases,
}
use storing_devices_logs_tfm.Usb.{UsbInterface, UsbInfo}
use storing_devices_logs_tfm.Usb.Log.Events.{
  Event, stores, says, nothing, Note, UsbLine, Table, change, noted, accepts, attach, register,
  session, leaving, vacate, leave_devices, Machine, step, run, numbers, serial, product, maker,
}
use storing_devices_logs_tfm.Usb.Log.Events.Commute.{
  departing, time_of, devices-register, change_off, attach_off, vacate_off,
}
use storing_devices_logs_tfm.Usb.Log.Events.Simulate.{ports_accepted, ports_refused}
use storing_devices_logs_tfm.Usb.Storage.{stored}

-- It is on the port, since `time`.
pub record IsPlugged (time k : Bytes) (p : Table UsbInterface) : Type 0 where
  pub device : UsbInterface
  pub here : p k ≡ some device
  pub used : device.is_empty ≡ false
  pub storage : device.is_storage_device ≡ true
  pub since : device.connection_time ≡ time

-- A device has the time among those of its connections.
pub record IsRecorded (time : Bytes) (d : Table UsbInfo) : Type 0 where
  pub serial_number : Bytes
  pub info : UsbInfo
  pub listed : d serial_number ≡ some info
  pub connected : Mem time info.connection_times

abbrev pub IsKept : Bytes → Bytes → Machine → Type 0
IsKept time k m = IsPlugged time k m.ports ⊎ IsRecorded time m.devices

register_keeps :
    (time t : Bytes) (o : Option UsbInterface) (d : Table UsbInfo)
    → IsRecorded time d
    → IsRecorded time (register t o d)
register_keeps time t none d r = r
register_keeps time t (some e) d r = elim (Bool-cases (equal e.serial_number r.serial_number)) [
  | inr h ↦ record {
    serial_number = r.serial_number;
    info = r.info;
    listed = rw h r.listed;
    connected = r.connected;
  }
  | inl h ↦ record {
    serial_number = r.serial_number;
    info = session t e (some r.info);
    listed = ground (arith, r.listed, equal_iff e.serial_number r.serial_number);
    connected = mem-append_left (e.connection_time ∷ []) r.connected;
  }
]

session_records :
    (t : Bytes) (e : UsbInterface) (o : Option UsbInfo)
    → Mem e.connection_time (session t e o).connection_times
session_records t e none = mem-cons_self
session_records t e (some u) = mem-append_right u.connection_times mem-cons_self

register_records :
    (time t : Bytes) (e : UsbInterface) (d : Table UsbInfo)
    → e.connection_time ≡ time
    → IsRecorded time (register t (some e) d)
register_records time t e d since = record {
  serial_number = e.serial_number;
  info = session t e (d e.serial_number);
  listed = ground (arith, equal_iff e.serial_number e.serial_number);
  connected =
      subst (λ s. Mem s (session t e (d e.serial_number)).connection_times) since
        (session_records t e (d e.serial_number));
}

module _ (time k id : Bytes) (p : Table UsbInterface) (r : IsPlugged time k p) where
  -- A change of other fields, at this port or at another one.
  change-IsPlugged :
      (g : UsbInterface → UsbInterface)
      → (g r.device).is_empty ≡ false
      → (g r.device).is_storage_device ≡ true
      → (g r.device).connection_time ≡ time
      → IsPlugged time k (change id g p)
  change-IsPlugged g used storage since = elim (Bool-cases (equal id k)) [
    | inl h ↦ record {
      device = g r.device;
      here = ground (arith, (equal_iff id k).0 h, equal_iff id k, r.here);
      used = used;
      storage = storage;
      since = since;
    }
    | inr h ↦ record {
      device = r.device;
      here = change_off id p p g k (λ e. cc (h, (equal_iff id k).1 (sym e))) ∙ r.here;
      used = r.used;
      storage = r.storage;
      since = r.since;
    }
  ]

  noted-IsPlugged : (n : Option Note) → IsPlugged time k (change id (noted n) p)
  noted-IsPlugged none = change-IsPlugged (noted none) r.used r.storage r.since
  noted-IsPlugged (some (numbers v q)) =
      change-IsPlugged (noted (some (numbers v q))) r.used r.storage r.since
  noted-IsPlugged (some (serial s)) =
      change-IsPlugged (noted (some (serial s))) r.used r.storage r.since
  noted-IsPlugged (some (product s)) =
      change-IsPlugged (noted (some (product s))) r.used r.storage r.since
  noted-IsPlugged (some (maker s)) =
      change-IsPlugged (noted (some (maker s))) r.used r.storage r.since

module _ (time k : Bytes) (u : UsbLine) (q : Table UsbInterface) (d : Table UsbInfo)
    (r : IsPlugged time k q) where
  -- A port in use is not taken.
  not_taken : accepts u.new_port q ≡ true → u.new_port ≢ some k
  not_taken h e = ground (arith, e, r.here, r.used, h)

  attach-IsPlugged : accepts u.new_port q ≡ true → IsPlugged time k (attach u.time u.new_port q)
  attach-IsPlugged h = record {
    device = r.device;
    here = attach_off u q q u.time u.new_port k (not_taken h) ∙ r.here;
    used = r.used;
    storage = r.storage;
    since = r.since;
  }

  -- The one that leaves is that on the port of the line.
  leaving_here : (x : UsbInterface) → leaving u q ≡ some x → k ≡ u.port → x ≡ r.device
  leaving_here x l e = ground (arith, l, e, r.here, r.used, r.storage)

  vacate_kept :
      (o : Option UsbInterface)
      → ((x : UsbInterface) → o ≡ some x → k ≡ u.port → x ≡ r.device)
      → IsPlugged time k (vacate u.port o q) ⊎ IsRecorded time (register u.time o d)
  vacate_kept none same = inl r
  vacate_kept (some x) same = elim (Bool-cases (equal k u.port)) [
    | inl h ↦
        let e : x.connection_time ≡ time =
          ap (λ (x : UsbInterface). x.connection_time) (same x refl ((equal_iff k u.port).0 h))
          ∙ r.since in
        inr (register_records time u.time x d e)
    | inr h ↦ inl (record {
      device = r.device;
      here = vacate_off u q q (some x) k (λ e. cc (h, (equal_iff k u.port).1 e)) ∙ r.here;
      used = r.used;
      storage = r.storage;
      since = r.since;
    })
  ]

says-IsKept :
    (time k : Bytes) (u : UsbLine) (m : Machine)
    → IsPlugged time k m.ports
    → IsKept time k (step (says u) m)
says-IsKept time k u m r =
    let q = change u.port (noted u.note) m.ports in
    let p = noted-IsPlugged time k u.port m.ports r u.note in
    elim (Bool-cases (accepts u.new_port q)) [
      | inl h ↦ inl (
          subst (IsPlugged time k) (sym (ports_accepted u m.ports h))
            (attach-IsPlugged time k u q m.devices p h))
      | inr h ↦
          subst (λ t. IsPlugged time k t ⊎ IsRecorded time (leave_devices u q m.devices))
            (sym (ports_refused u m.ports h))
            (vacate_kept time k u q m.devices p (leaving u q) (leaving_here time k u q m.devices p))
    ]

pub step-IsKept :
    (time k : Bytes) (e : Event) (m : Machine) → IsKept time k m → IsKept time k (step e m)
step-IsKept time k e m (inr r) = inr (
    subst (IsRecorded time) (sym (devices-register e m.ports m.devices))
      (register_keeps time (time_of e) (departing e m.ports) m.devices r))
step-IsKept time k nothing m (inl r) = inl r
step-IsKept time k (stores id) m (inl r) =
    inl (change-IsPlugged time k id m.ports r stored r.used refl r.since)
step-IsKept time k (says u) m (inl r) = says-IsKept time k u m r

pub run-IsKept :
    (time k : Bytes) (es : List Event) (m : Machine) → IsKept time k m → IsKept time k (run es m)
run-IsKept time k [] m r = r
run-IsKept time k (e ∷ es) m r = run-IsKept time k es (step e m) (step-IsKept time k e m r)
