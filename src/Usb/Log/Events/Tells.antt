-- ===== src/Usb/Log/Events/Tells.antt =====
-- What the lines of a device's port do to the machine, from its connection to its disconnection.
use storing_devices_logs_tfm.Base.{
  true, false, ◌≡◌, ◌≢◌, ap, ◌∙◌, arith, List, [], ◌∷◌, some, none, Bytes, equal_iff, All,
  Option-cases, inl, inr,
}
use storing_devices_logs_tfm.Usb.{UsbInterface, initialized}
use storing_devices_logs_tfm.Usb.Storage.{stored}
use storing_devices_logs_tfm.Usb.Log.Events.{
  Event, stores, says, nothing, Table, UsbLine, noted, is_free, plugged, session, Machine, step,
  run, ports_after, devices_after, change, accepts, attach, leaving, vacate, register,
}
use storing_devices_logs_tfm.Usb.Log.Events.Simulate.{
  ports_accepted, ports_refused, devices_accepted,
}

-- The event tells something of the device on a port, which stays there; or nothing at all.
abbrev pub Tells : Bytes → Event → Type 0
Tells id nothing = Unit
Tells id (stores k) = k ≡ id
Tells id (says u) = (u.port ≡ id) × (u.new_port ≡ none) × (u.leaves ≡ false)

-- What is known of the device behind the event, and behind all of them.
abbrev pub told_by : Event → UsbInterface → UsbInterface
told_by nothing x = x
told_by (stores k) x = stored x
told_by (says u) x = noted u.note x

abbrev pub told : List Event → UsbInterface → UsbInterface
told [] x = x
told (e ∷ es) x = told es (told_by e x)

-- A machine that differs from another one in the device on a port only.
pub record Holds (id : Bytes) (x : UsbInterface) (m n : Machine) : Type 0 where
  pub here : n.ports id ≡ some x
  pub others : (j : Bytes) → j ≢ id → n.ports j ≡ m.ports j
  pub devices : (k : Bytes) → n.devices k ≡ m.devices k

module _ (id : Bytes) (m n : Machine) (x : UsbInterface) (h : Holds id x m n) where
  step-Holds : (e : Event) → Tells id e → Holds id (told_by e x) m (step e n)
  step-Holds nothing t = h
  step-Holds (stores k) t = record {
    here = ground (arith, t, h.here, equal_iff k id);
    others = λ j ne. ground (arith, t, ne, h.here, equal_iff k j, h.others j ne);
    devices = h.devices;
  }
  step-Holds (says u) t = record {
    here = ground (arith, t.0, t.1, t.2, h.here, equal_iff u.port id);
    others = λ j ne. ground (arith, t.0, t.1, t.2, ne, h.here, equal_iff u.port j, h.others j ne);
    devices = λ k. ground (arith, t.1, t.2, h.devices k);
  }

pub run-Holds :
    (id : Bytes) (es : List Event) (m n : Machine) (x : UsbInterface)
    → Holds id x m n
    → All (Tells id) es
    → Holds id (told es x) m (run es n)
run-Holds id [] m n x h t = h
run-Holds id (e ∷ es) m n x h t =
    run-Holds id es m (step e n) (told_by e x) (step-Holds id m n x h e t.0) t.1

module _ (id : Bytes) (m : Machine) (u : UsbLine) (plain : u.note ≡ none) where
  pub new-Holds :
      u.new_port ≡ some id
      → is_free (m.ports id) ≡ true
      → Holds id (plugged u.time (m.ports id)) m (step (says u) m)
  new-Holds new free = holds
    where
      q : Table UsbInterface
      q = change u.port (noted u.note) m.ports

      same : (j : Bytes) → q j ≡ m.ports j
      same j = elim (Option-cases (m.ports u.port)) [
        | inl n ↦ ground (arith, n)
        | inr (w, n) ↦ ground (arith, n, plain, equal_iff u.port j)
      ]

      accepted : accepts u.new_port q ≡ true
      accepted = rw (new, same id) free

      ports : ports_after (says u) m.ports ≡ attach u.time u.new_port q
      ports = ports_accepted u m.ports accepted

      devices : devices_after (says u) m.ports m.devices ≡ m.devices
      devices = devices_accepted u m.ports m.devices accepted

      holds : Holds id (plugged u.time (m.ports id)) m (step (says u) m)
      holds = record {
        here = ap (λ f. f id) ports ∙ ground (arith, new, same id, equal_iff id id);
        others = λ j ne. ap (λ f. f j) ports ∙ ground (arith, new, same j, ne, equal_iff id j);
        devices = λ k. ap (λ f. f k) devices;
      }

-- The port is free again, and the device has one more session.
pub record HasLeft (id time : Bytes) (x : UsbInterface) (m n : Machine) : Type 0 where
  pub here : n.ports id ≡ some initialized
  pub others : (j : Bytes) → j ≢ id → n.ports j ≡ m.ports j
  pub recorded : n.devices x.serial_number ≡ some (session time x (m.devices x.serial_number))
  pub unchanged : (k : Bytes) → k ≢ x.serial_number → n.devices k ≡ m.devices k

module _ (id : Bytes) (m n : Machine) (x : UsbInterface) (h : Holds id x m n) (u : UsbLine)
    (plain : u.note ≡ none) (from : u.port ≡ id) (not_new : u.new_port ≡ none)
    (gone : u.leaves ≡ true) (used : x.is_empty ≡ false) (stores : x.is_storage_device ≡ true) where
  leaves_here : leaving u (change u.port (noted u.note) n.ports) ≡ some x
  leaves_here = ground (arith, plain, from, not_new, gone, used, stores, h.here, equal_iff id id)

  pub gone-HasLeft : HasLeft id u.time x m (step (says u) n)
  gone-HasLeft = record {
    here = ap (λ f. f id) ports ∙ ground (arith, from, equal_iff id id);
    others = λ j ne.
        ap (λ f. f j) ports
        ∙ ground (arith, from, ne, equal_iff id j, plain, h.here, h.others j ne);
    recorded =
        ap (λ f. f x.serial_number) devices
        ∙ ground (arith, h.devices x.serial_number, equal_iff x.serial_number x.serial_number);
    unchanged = λ k ne.
        ap (λ f. f k) devices ∙ ground (arith, ne, h.devices k, equal_iff x.serial_number k);
  }
    where
      q : Table UsbInterface
      q = change u.port (noted u.note) n.ports

      refused : accepts u.new_port q ≡ false
      refused = rw not_new

      ports : ports_after (says u) n.ports ≡ vacate u.port (some x) q
      ports = ports_refused u n.ports refused ∙ ap (λ o. vacate u.port o q) leaves_here

      devices : devices_after (says u) n.ports n.devices ≡ register u.time (some x) n.devices
      devices = ap (λ o. register u.time o n.devices) leaves_here
