-- ===== src/Usb/Log/Events/Simulate.antt =====
-- The body of the loop of getUSBsInfo, and the loop, against the machine.
use storing_devices_logs_tfm.Base.{
  true, false, ◌≡◌, refl, subst, sym, arith, List, [], ◌∷◌, some, none, Option, Bytes, done, ◌>>=◌,
  inl, inr, Option-cases, Bool-cases, >>=-eq-done,
}
use storing_devices_logs_tfm.Regex.{regex_search}
use storing_devices_logs_tfm.Usb.{UsbInterface, UsbInfo}
use storing_devices_logs_tfm.Usb.Text.{storage_regex, usb_regex}
use storing_devices_logs_tfm.Usb.Text.{get_interface_id_from_regex}
use storing_devices_logs_tfm.Usb.Checks.{interface_of, date_of}
use storing_devices_logs_tfm.Usb.Storage.{storage_absent}
use storing_devices_logs_tfm.Usb.Log.{
  State, connection_checks, usb_checks, process_line, process_lines,
}
use storing_devices_logs_tfm.Usb.Log.Events.{
  Event, stores, says, nothing, Note, read_note, read_event, read_events, usb_line, Machine, step,
  run, change, noted, accepts, attach, new_port_of, Table, ports_after, devices_after, UsbLine,
  leave_port,
}
use storing_devices_logs_tfm.Usb.Log.Events.Shown.{Shows}
use storing_devices_logs_tfm.Usb.Log.Events.Refine.{
  storage_shown, information_shown, connection_shown, disconnection_shown,
}

-- The two maps, in order, hold what the machine holds.
pub record Represents (s : State) (m : Machine) : Type 0 where
  pub interfaces_shown : Shows s.interfaces m.ports
  pub usbs_shown : Shows s.usbs m.devices

module _ (u : UsbLine) (p : Table UsbInterface) where
  abbrev pub after_note : Table UsbInterface
  after_note = change u.port (noted u.note) p

  pub ports_accepted :
      accepts u.new_port after_note ≡ true
      → ports_after (says u) p ≡ attach u.time u.new_port after_note
  ports_accepted h = rw h

  pub devices_accepted :
      (d : Table UsbInfo) → accepts u.new_port after_note ≡ true → devices_after (says u) p d ≡ d
  devices_accepted d h = rw h

  pub ports_refused :
      accepts u.new_port after_note ≡ false → ports_after (says u) p ≡ leave_port u after_note
  ports_refused h = rw h

abbrev pub Simulates : Bytes → State → Event → Machine → Type 0
Simulates line s e m = (t : State) × (process_line line s ≡ done t) × Represents t (step e m)

module _ (line : Bytes) (s : State) (m : Machine) (r : Represents s m) where
  storage-Simulates :
      {found : Bytes}
      → regex_search storage_regex line ≡ some found
      → Simulates line s (stores (get_interface_id_from_regex found)) m
  unfolding process_line
  storage-Simulates h =
      let (i, checked, shown) = storage_shown line s.interfaces m.ports r.interfaces_shown h in
      (
        record s { interfaces = i },
        rw checked,
        record { interfaces_shown = shown; usbs_shown = r.usbs_shown },
      )

  nothing-Simulates :
      regex_search storage_regex line ≡ none
      → regex_search usb_regex line ≡ none
      → Simulates line s nothing m
  unfolding process_line
  nothing-Simulates h k = (s, rw (storage_absent line s.interfaces h, k), r)

  usb-Simulates :
      {found : Bytes} (n : Option Note)
      → regex_search storage_regex line ≡ none
      → regex_search usb_regex line ≡ some found
      → read_note line ≡ done n
      → Simulates line s (says (usb_line line n)) m
  unfolding process_line usb_checks connection_checks
  usb-Simulates n h k readable =
      let (i, informed, told) =
        information_shown line s.interfaces m.ports r.interfaces_shown n k readable in
      let q = change (interface_of line) (noted n) m.ports in
      let line_read = usb_line line n in
      let (j, connected, taken) = connection_shown line i q told in
      elim (Bool-cases (accepts (new_port_of line) q)) [
        | inl free ↦
            let ports : Shows j (attach (date_of line) (new_port_of line) q) = rw free at taken in
            (
              record s { interfaces = j },
              rw (storage_absent line s.interfaces h, k, informed, connected, free),
              record {
                interfaces_shown =
                    subst (Shows j) (sym (ports_accepted line_read m.ports free)) ports;
                usbs_shown =
                    subst (Shows s.usbs) (sym (devices_accepted line_read m.ports m.devices free))
                      r.usbs_shown;
              },
            )
        | inr busy ↦
            let ports : Shows j q = rw busy at taken in
            let (b, t, v, gone, left, listed) =
              disconnection_shown line n j s.usbs q m.devices ports r.usbs_shown busy in
            (
              record { interfaces = t; usbs = v },
              rw (storage_absent line s.interfaces h, k, informed, connected, busy, gone),
              record {
                interfaces_shown =
                    subst (Shows t) (sym (ports_refused line_read m.ports busy)) left;
                usbs_shown = listed;
              },
            )
      ]

  reads :
      {found : Bytes} {e : Event}
      → regex_search storage_regex line ≡ none
      → regex_search usb_regex line ≡ some found
      → read_event line ≡ done e
      → read_note line >>= (λ n. done (says (usb_line line n))) ≡ done e
  unfolding read_event
  reads k f h = ground (arith, k, f, h)

  pub process_line-step : (e : Event) → read_event line ≡ done e → Simulates line s e m
  unfolding read_event
  process_line-step e h = elim (Option-cases (regex_search storage_regex line)) [
    | inr (found, k) ↦
        let same : stores (get_interface_id_from_regex found) ≡ e = ground (arith, k, h) in
        subst (λ x. Simulates line s x m) same (storage-Simulates k)
    | inl k ↦ elim (Option-cases (regex_search usb_regex line)) [
      | inl n ↦
          let same : nothing ≡ e = ground (arith, k, n, h) in
          subst (λ x. Simulates line s x m) same (nothing-Simulates k n)
      | inr (found, f) ↦
          let (n, readable, said) = >>=-eq-done (read_note line) _ (reads k f h) in
          let same : says (usb_line line n) ≡ e = cc (said) in
          subst (λ x. Simulates line s x m) same (usb-Simulates n k f readable)
    ]
  ]

abbrev pub Runs : List Bytes → State → Machine → List Event → Type 0
Runs lines s m es = (t : State) × (process_lines lines s ≡ done t) × Represents t (run es m)

pub process_lines-run :
    (lines : List Bytes) (es : List Event) (s : State) (m : Machine)
    → read_events lines ≡ done es
    → Represents s m
    → Runs lines s m es
unfolding process_lines read_events
process_lines-run [] es s m h r =
    let same : [] ≡ es = cc (h) in subst (Runs [] s m) same (s, refl, r)
process_lines-run (line ∷ lines) es s m h r =
    let (e, read, rest) = >>=-eq-done (read_event line) _ h in
    let (es', reads, listed) = >>=-eq-done (read_events lines) _ rest in
    let same : e ∷ es' ≡ es = cc (listed) in
    let (t, processed, shown) = process_line-step line s m r e read in
    let (u, all, holds) = process_lines-run lines es' t (step e m) reads shown in
    subst (Runs (line ∷ lines) s m) same (u, rw (processed, all), holds)
