-- ===== src/Usb/Log/Events/Described.antt =====
-- A device whose lines stand between its connection and its disconnection, in any order.
use storing_devices_logs_tfm.Base.{
  true, false, ◌≡◌, ◌≢◌, refl, ◌∙◌, List, [], ◌∷◌, ◌++◌, some, none, Option, Bytes, done, All,
}
use storing_devices_logs_tfm.Regex.{regex_search, is_found}
use storing_devices_logs_tfm.StdMap.{find}
use storing_devices_logs_tfm.Usb.{UsbInterface, initialized}
use storing_devices_logs_tfm.Usb.Storage.{stored}
use storing_devices_logs_tfm.Usb.Text.{disconnection_found_regex}
use storing_devices_logs_tfm.Usb.Checks.{date_of, interface_of}
use storing_devices_logs_tfm.Usb.Log.{State, process_lines}
use storing_devices_logs_tfm.Usb.Log.Run.{lines_then}
use storing_devices_logs_tfm.Usb.Log.Sessions.{lines_step, lines_end}
use storing_devices_logs_tfm.Usb.Log.Invariant.{IsWellFormed}
use storing_devices_logs_tfm.Usb.Log.Events.{
  Event, stores, says, nothing, usb_line, read_event, read_events, noted, is_free, plugged, session,
  step, run, new_port_of, Note, numbers, serial, product, maker,
}
use storing_devices_logs_tfm.Usb.Log.Events.Order.{machine_of, machine_of-Represents}
use storing_devices_logs_tfm.Usb.Log.Events.Simulate.{process_line-step, process_lines-run}
use storing_devices_logs_tfm.Usb.Log.Events.Tells.{Tells, told, run-Holds, new-Holds, gone-HasLeft}

noted-is_empty : (o : Option Note) (x : UsbInterface) → (noted o x).is_empty ≡ x.is_empty
noted-is_empty none x = refl
noted-is_empty (some (numbers v p)) x = refl
noted-is_empty (some (serial s)) x = refl
noted-is_empty (some (product s)) x = refl
noted-is_empty (some (maker s)) x = refl

told-is_empty : (es : List Event) (x : UsbInterface) → (told es x).is_empty ≡ x.is_empty
told-is_empty [] x = refl
told-is_empty (nothing ∷ es) x = told-is_empty es x
told-is_empty (stores k ∷ es) x = told-is_empty es (stored x)
told-is_empty (says u ∷ es) x = told-is_empty es (noted u.note x) ∙ noted-is_empty u.note x

plugged-is_empty : (time : Bytes) (o : Option UsbInterface) → (plugged time o).is_empty ≡ false
plugged-is_empty time none = refl
plugged-is_empty time (some e) = refl

-- A line that says only that a new device is on the port.
pub record IsArrival (id line : Bytes) : Type 0 where
  pub read : read_event line ≡ done (says (usb_line line none))
  pub new : new_port_of line ≡ some id

-- A line that says only that the device of the port is gone.
pub record IsDeparture (id line : Bytes) : Type 0 where
  pub read : read_event line ≡ done (says (usb_line line none))
  pub from : interface_of line ≡ id
  pub not_new : new_port_of line ≡ none
  pub gone : is_found (regex_search disconnection_found_regex line) ≡ true

-- What is known of the device when it leaves.
abbrev pub described_as : Bytes → Bytes → State → List Event → UsbInterface
described_as id new_line s es = told es (plugged (date_of new_line) (find id s.interfaces))

module _ (id new_line gone_line : Bytes) (lines : List Bytes) (es : List Event) (s : State)
    (a : IsArrival id new_line) (b : IsDeparture id gone_line) (w : IsWellFormed s)
    (read : read_events lines ≡ done es) (about : All (Tells id) es)
    (free : is_free (find id s.interfaces) ≡ true)
    (stores : (described_as id new_line s es).is_storage_device ≡ true) where
  -- In a well-formed state, for a port that is unknown or free, if the lines between the
  -- connection and the disconnection of a device tell only of that port, in any number and order,
  -- and the port is marked as one for storage behind them, then all the lines are processed
  -- without a fault. Afterwards the map has the device under the serial number that was told last:
  -- a device that was in the map has one more pair of times, and another one has the numbers, the
  -- product and the manufacturer that were told last; what no line tells is what the free port
  -- had. The port is free, and no other port and no other device has changed.
  pub described_session :
      let x = described_as id new_line s es in
      (r : State) × (process_lines (new_line ∷ (lines ++ gone_line ∷ [])) s ≡ done r)
      × (find x.serial_number r.usbs
          ≡ some (session (date_of gone_line) x (find x.serial_number s.usbs)))
      × (find id r.interfaces ≡ some initialized)
      × ((k : Bytes) → k ≢ id → find k r.interfaces ≡ find k s.interfaces)
      × ((k : Bytes) → k ≢ x.serial_number → find k r.usbs ≡ find k s.usbs)
  described_session =
      let m = machine_of s in
      let x₀ = plugged (date_of new_line) (find id s.interfaces) in
      let x = told es x₀ in
      let u = usb_line new_line none in
      let v = usb_line gone_line none in
      let (s₁, e₁, r₁) =
        process_line-step new_line s m (machine_of-Represents s w) (says u) a.read in
      let (s₂, e₂, r₂) = process_lines-run lines es s₁ (step (says u) m) read r₁ in
      let n = run es (step (says u) m) in
      let (s₃, e₃, r₃) = process_line-step gone_line s₂ n r₂ (says v) b.read in
      let h = run-Holds id es m (step (says u) m) x₀ (new-Holds id m u refl a.new free) about in
      let used = told-is_empty es x₀ ∙ plugged-is_empty (date_of new_line) (find id s.interfaces) in
      let left = gone-HasLeft id m n x h v refl b.from b.not_new b.gone used stores in
      let ports = r₃.interfaces_shown in
      let devices = r₃.usbs_shown in
      (
        s₃,
        lines_step new_line (lines ++ gone_line ∷ []) s s₁ e₁
            ∙ lines_then lines (gone_line ∷ []) s₁ s₂ s₃ e₂
                (lines_step gone_line [] s₂ s₃ e₃ ∙ lines_end s₃),
        devices.found x.serial_number ∙ left.recorded,
        ports.found id ∙ left.here,
        λ k ne. ports.found k ∙ left.others k ne,
        λ k ne. devices.found k ∙ left.unchanged k ne,
      )
