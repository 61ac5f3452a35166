-- ===== src/Usb/Log/Sessions.antt =====
-- What the log of a whole session leaves in the map of devices, and what a device that is not for
-- storage leaves on its port.
use storing_devices_logs_tfm.Base.{
  false, ◌≡◌, ◌≢◌, refl, ◌∙◌, arith, List, [], ◌∷◌, some, none, Bytes, done, equal_refl, equal_iff,
}
use storing_devices_logs_tfm.StdMap.{find, insert, IsSorted}
use storing_devices_logs_tfm.StdMap.Lookup.{find-insert}
use storing_devices_logs_tfm.StdMap.Replace.{set, find-set}
use storing_devices_logs_tfm.Usb.{Interfaces, UsbInterface, initialized}
use storing_devices_logs_tfm.Usb.Checks.{date_of}
use storing_devices_logs_tfm.Usb.Safety.{Touches, set-Touches, insert-Touches}
use storing_devices_logs_tfm.Usb.Storage.{stored, connected}
use storing_devices_logs_tfm.Usb.Disconnection.{first_session}
use storing_devices_logs_tfm.Usb.Log.{State, process_line, process_lines}
use storing_devices_logs_tfm.Usb.Log.Invariant.{IsWellFormed}
use storing_devices_logs_tfm.Usb.Log.Lines.{
  IsConnection, IsDisconnection, IsStorage, IsSerial, serial_of, process_connection_first,
  process_connection_busy, process_storage, process_serial,
}
use storing_devices_logs_tfm.Usb.Log.Disconnects.{
  process_disconnection_other, process_disconnection_first,
}

pub lines_step :
    (line : Bytes) (lines : List Bytes) (s t : State)
    → process_line line s ≡ done t
    → process_lines (line ∷ lines) s ≡ process_lines lines t
unfolding process_lines
lines_step line lines s t e = rw e

pub lines_end : (s : State) → process_lines [] s ≡ done s
unfolding process_lines
lines_end s = refl

-- If a port is in use by a device that is not for storage, the disconnection of that device and
-- the connection of the next one on the port leave the state as it was.
pub stale_connection :
    (id gone_line new_line : Bytes) (s : State) (e : UsbInterface)
    → IsDisconnection id gone_line
    → IsConnection id new_line
    → find id s.interfaces ≡ some e
    → e.is_empty ≡ false
    → e.is_storage_device ≡ false
    → process_lines (gone_line ∷ new_line ∷ []) s ≡ done s
stale_connection id gone_line new_line s e d c n used other =
    lines_step gone_line (new_line ∷ []) s s
      (process_disconnection_other id gone_line s e d n other)
    ∙ lines_step new_line [] s s (process_connection_busy id new_line s e c n used)
    ∙ lines_end s

-- A port after the connection, the serial number and the storage line of a device.
abbrev pub session_of : {id serial_line : Bytes} → Bytes → IsSerial id serial_line → UsbInterface
session_of new_line n =
    stored (record (connected new_line initialized) { serial_number = serial_of n })

pub find-set_self :
    {V : Type 0} (k : Bytes) (v w : V) (m : List (Bytes × V))
    → find k m ≡ some w
    → find k (set k v m) ≡ some v
find-set_self k v w m f = ground (arith, find-set k k v w m f, equal_refl k)

find-insert_self :
    {V : Type 0} (k : Bytes) (v : V) (m : List (Bytes × V))
    → IsSorted m
    → find k m ≡ none
    → find k (insert k v m) ≡ some v
find-insert_self k v m s f = ground (arith, find-insert k k v m s, equal_refl k)

-- A port with the serial number of a device, and known to be for storage.
abbrev pub described :
    {id serial_line : Bytes} → IsSerial id serial_line → UsbInterface → UsbInterface
described n a = stored (record a { serial_number = serial_of n })

module _ (id serial_line storage_line : Bytes) (s : State) (a : UsbInterface)
    (n : IsSerial id serial_line) (t : IsStorage id storage_line) (sorted : IsSorted s.interfaces)
    (f : find id s.interfaces ≡ some a) where
  -- The interfaces behind the two lines that describe a connected device.
  abbrev pub with_description : Interfaces
  with_description =
      set id (described n a) (set id (record a { serial_number = serial_of n }) s.interfaces)

  pub with_description-Touches :
      Touches id s.interfaces with_description × (find id with_description ≡ some (described n a))
  with_description-Touches =
      let b = record a { serial_number = serial_of n } in
      let m = set id b s.interfaces in
      let t₁ = set-Touches id b a s.interfaces sorted f in
      let f₁ = find-set_self id b a s.interfaces f in
      let t₂ = set-Touches id (described n a) b m t₁.sorted f₁ in
      (
        record { sorted = t₂.sorted; others = λ k ne. t₂.others k ne ∙ t₁.others k ne },
        find-set_self id (described n a) b m f₁,
      )

  pub description_runs :
      (lines : List Bytes)
      → process_lines (serial_line ∷ storage_line ∷ lines) s
        ≡ process_lines lines (record s { interfaces = with_description })
  description_runs lines =
      let b = record a { serial_number = serial_of n } in
      let m = set id b s.interfaces in
      let t₁ = set-Touches id b a s.interfaces sorted f in
      let f₁ = find-set_self id b a s.interfaces f in
      lines_step serial_line (storage_line ∷ lines) s (record s { interfaces = m })
        (process_serial id serial_line s a n sorted f)
      ∙ lines_step storage_line lines (record s { interfaces = m })
          (record s { interfaces = with_description })
          (process_storage id storage_line (record s { interfaces = m }) b t t₁.sorted f₁)

module _ (id new_line serial_line storage_line gone_line : Bytes) (s : State)
    (c : IsConnection id new_line) (n : IsSerial id serial_line) (t : IsStorage id storage_line)
    (d : IsDisconnection id gone_line) (w : IsWellFormed s) (unused : find id s.interfaces ≡ none)
    (unknown : find (serial_of n) s.usbs ≡ none) where
  -- In a well-formed state, for a port that is not in the map of interfaces and a serial number
  -- that is not in the map of devices, the lines of the connection, the serial number, the storage
  -- announcement and the disconnection of a device on that port are processed without a fault.
  -- Afterwards the device is in the map under its serial number with the times of its connection
  -- and its disconnection, the port is free, and no other port and no other device has changed.
  pub whole_session :
      (r : State) × (process_lines (new_line ∷ serial_line ∷ storage_line ∷ gone_line ∷ []) s
        ≡ done r)
      × (find (serial_of n) r.usbs
          ≡ some (first_session (date_of gone_line) (session_of new_line n)))
      × (find id r.interfaces ≡ some initialized)
      × ((k : Bytes) → k ≢ id → find k r.interfaces ≡ find k s.interfaces)
      × ((k : Bytes) → k ≢ serial_of n → find k r.usbs ≡ find k s.usbs)
  whole_session =
      let a = connected new_line initialized in
      let e = session_of new_line n in
      let s₁ = record s { interfaces = insert id a s.interfaces } in
      let t₁ = insert-Touches id a s.interfaces w.interfaces_sorted in
      let f₁ = find-insert_self id a s.interfaces w.interfaces_sorted unused in
      let m = with_description id serial_line storage_line s₁ a n t t₁.sorted f₁ in
      let (t₂, f₂) = with_description-Touches id serial_line storage_line s₁ a n t t₁.sorted f₁ in
      let t₃ = set-Touches id initialized e m t₂.sorted f₂ in
      let u = first_session (date_of gone_line) e in
      let r : State = record {
        interfaces = set id initialized m;
        usbs = insert (serial_of n) u s.usbs;
      } in
      (
        r,
        lines_step new_line (serial_line ∷ storage_line ∷ gone_line ∷ []) s s₁
              (process_connection_first id new_line s c unused)
            ∙ description_runs id serial_line storage_line s₁ a n t t₁.sorted f₁ (gone_line ∷ [])
            ∙ lines_step gone_line [] (record s { interfaces = m }) r
                (process_disconnection_first id gone_line (record s { interfaces = m }) e d
                  t₂.sorted f₂ refl refl unknown)
            ∙ lines_end r,
        find-insert_self (serial_of n) u s.usbs w.devices.sorted unknown,
        find-set_self id initialized e m f₂,
        λ k ne. t₃.others k ne ∙ t₂.others k ne ∙ t₁.others k ne,
        λ k ne. ground (
          arith,
          find-insert k (serial_of n) u s.usbs w.devices.sorted,
          equal_iff (serial_of n) k,
          ne,
        ),
      )
