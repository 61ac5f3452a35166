-- ===== src/Usb/Log/Events/Refine.antt =====
-- The checks of a line against the machine on the event that the line is read as.
use storing_devices_logs_tfm.Base.{
  true, false, Bool, ◌≡◌, refl, sym, ◌∙◌, arith, some, none, Option, Bytes, done, ◌>>=◌,
  if◌then◌else◌, inl, inr, Option-cases, Bool-cases,
}
use storing_devices_logs_tfm.Regex.{regex_search}
use storing_devices_logs_tfm.StdMap.{find, insert}
use storing_devices_logs_tfm.StdMap.Replace.{set, replace-set}
use storing_devices_logs_tfm.Usb.{UsbInterface, UsbInfo, Interfaces, Usbs, initialized}
use storing_devices_logs_tfm.Usb.Text.{
  storage_regex, usb_regex, new_usb_regex, disconnection_found_regex, get_interface_id_from_regex,
}
use storing_devices_logs_tfm.Usb.Checks.{
  check_if_storage_device, check_if_new_device_connected, check_if_device_disconnected,
  check_if_information_about_device_found, updated_by, store_update, interface_of, date_of,
}
use storing_devices_logs_tfm.Usb.Storage.{
  stored, connected, storage_unknown, storage_known, connection_absent, connection_first,
  connection_again, connection_busy,
}
use storing_devices_logs_tfm.Usb.Inform.{information_unknown, information_known}
use storing_devices_logs_tfm.Usb.Disconnection.{
  with_session, first_session, disconnection_absent, disconnection_unknown, disconnection_empty,
  disconnection_other, disconnection_first, disconnection_again,
}
use storing_devices_logs_tfm.Usb.Log.Events.{
  Note, read_note, noted, new_port_of, usb_line, UsbLine, Table, change, accepts, attach, leaving,
  leave_port, leave_devices,
}
use storing_devices_logs_tfm.Usb.Log.Events.Shown.{
  Shows, set-Shows, insert-Shows, change-absent, change-present, change-same,
}

-- The update of an element is the note of the line, put on it.
abbrev pub put : UsbInterface → Option Note → Option UsbInterface
put e none = none
put e (some n) = some (noted (some n) e)

pub updated_by-read_note :
    (line : Bytes) (e : UsbInterface) → updated_by line e ≡ read_note line >>= λ n. done (put e n)
unfolding updated_by read_note
updated_by-read_note line e = ground arith

module _ (line : Bytes) (m : Interfaces) (p : Table UsbInterface) (shown : Shows m p) where
  pub storage_shown :
      {found : Bytes}
      → regex_search storage_regex line ≡ some found
      → (t : Interfaces) × (check_if_storage_device line m ≡ done (true, t))
        × Shows t (change (get_interface_id_from_regex found) stored p)
  storage_shown {found} h = elim (Option-cases (find (get_interface_id_from_regex found) m)) [
    | inl n ↦ (m, storage_unknown line m found h n, change-absent _ stored m p shown n)
    | inr (e, n) ↦
        (_, storage_known line m found e shown.sorted h n, change-present _ stored m p shown e n)
  ]

  store_shown :
      (e : UsbInterface) (n : Option Note)
      → find (interface_of line) m ≡ some e
      → (t : Interfaces) × (store_update (interface_of line) (put e n) m ≡ done t)
        × Shows t (change (interface_of line) (noted n) p)
  unfolding store_update
  store_shown e none f = (m, refl, change-same _ (noted none) m p shown e f refl)
  store_shown e (some n) f = (
    _,
    replace-set _ (noted (some n) e) e m shown.sorted f,
    change-present _ (noted (some n)) m p shown e f,
  )

  pub information_shown :
      {found : Bytes} (n : Option Note)
      → regex_search usb_regex line ≡ some found
      → read_note line ≡ done n
      → (t : Interfaces) × (check_if_information_about_device_found line m ≡ done (false, t))
        × Shows t (change (interface_of line) (noted n) p)
  information_shown {found} n h r = elim (Option-cases (find (interface_of line) m)) [
    | inl f ↦ (m, information_unknown line m f, change-absent _ (noted n) m p shown f)
    | inr (e, f) ↦
        let (t, stores, shows) = store_shown e n f in
        (
          t,
          information_known line m found e h f ∙ rw (updated_by-read_note line e, r, stores),
          shows,
        )
  ]

  abbrev pub attached : Table UsbInterface
  attached = if accepts (new_port_of line) p then attach (date_of line) (new_port_of line) p else p

  pub connection_shown :
      (t : Interfaces) × (check_if_new_device_connected line m
        ≡ done (accepts (new_port_of line) p, t))
      × Shows t attached
  connection_shown = elim (Option-cases (regex_search new_usb_regex line)) [
    | inl h ↦ (m, rw h (connection_absent line m h), rw h shown)
    | inr (found, h) ↦
        let id = get_interface_id_from_regex found in
        elim (Option-cases (find id m)) [
          | inl n ↦
              let f : p id ≡ none = sym (shown.found id) ∙ n in
              (
                insert id (connected line initialized) m,
                rw (h, f) (connection_first line m found h n),
                rw (h, f) (insert-Shows id (connected line initialized) m p shown n),
              )
          | inr (e, n) ↦
              let f : p id ≡ some e = sym (shown.found id) ∙ n in
              elim (Bool-cases e.is_empty) [
                | inl t ↦ (
                  set id (connected line e) m,
                  rw (h, f, t) (connection_again line m found e shown.sorted h n t),
                  rw (h, f, t) (set-Shows id (connected line e) m p shown e n),
                )
                | inr t ↦
                    (m, rw (h, f, t) (connection_busy line m found e h n t), rw (h, f, t) shown)
              ]
        ]
  ]

-- The last check, behind the one for a new device.
abbrev pub Departed :
    UsbLine → Interfaces → Usbs → Table UsbInterface → Table UsbInfo → Bytes → Type 0
Departed u m usbs p d line =
    (b : Bool) × (t : Interfaces) × (v : Usbs) × (check_if_device_disconnected line m usbs
      ≡ done (b, t, v))
    × Shows t (leave_port u p)
    × Shows v (leave_devices u p d)

module _ (line : Bytes) (n : Option Note) (m : Interfaces) (usbs : Usbs) (p : Table UsbInterface)
    (d : Table UsbInfo) (ports : Shows m p) (devices : Shows usbs d) where
  module _ (refused : accepts (new_port_of line) p ≡ false) where
    stays :
        (b : Bool)
        → check_if_device_disconnected line m usbs ≡ done (b, m, usbs)
        → leaving (usb_line line n) p ≡ none
        → Departed (usb_line line n) m usbs p d line
    stays b e none_leaves = (b, m, usbs, e, rw none_leaves ports, rw none_leaves devices)

    module _ {found : Bytes} (h : regex_search disconnection_found_regex line ≡ some found)
        (e : UsbInterface) (f : find (interface_of line) m ≡ some e) (used : e.is_empty ≡ false)
        (stores : e.is_storage_device ≡ true) where
      seen : p (interface_of line) ≡ some e
      seen = sym (ports.found (interface_of line)) ∙ f

      e_leaves : leaving (usb_line line n) p ≡ some e
      e_leaves = rw (refused, h, seen, used, stores)

      departs : Departed (usb_line line n) m usbs p d line
      departs = elim (Option-cases (find e.serial_number usbs)) [
        | inl k ↦
            let g : d e.serial_number ≡ none = sym (devices.found e.serial_number) ∙ k in
            (
              true,
              set (interface_of line) initialized m,
              insert e.serial_number (first_session (date_of line) e) usbs,
              disconnection_first line m usbs h e f ports.sorted used stores k,
              rw e_leaves (set-Shows (interface_of line) initialized m p ports e f),
              rw (e_leaves, g)
                  (insert-Shows e.serial_number (first_session (date_of line) e) usbs d devices k),
            )
        | inr (u, k) ↦
            let g : d e.serial_number ≡ some u = sym (devices.found e.serial_number) ∙ k in
            (
              true,
              set (interface_of line) initialized m,
              set e.serial_number (with_session (date_of line) e u) usbs,
              disconnection_again line m usbs h e f ports.sorted used stores u devices.sorted k,
              rw e_leaves (set-Shows (interface_of line) initialized m p ports e f),
              rw (e_leaves, g)
                  (set-Shows e.serial_number (with_session (date_of line) e u) usbs d devices u k),
            )
      ]

    pub disconnection_shown : Departed (usb_line line n) m usbs p d line
    disconnection_shown = elim (Option-cases (regex_search disconnection_found_regex line)) [
      | inl h ↦ stays false (disconnection_absent line m usbs h) (rw (refused, h))
      | inr (found, h) ↦ elim (Option-cases (find (interface_of line) m)) [
        | inl f ↦
            let seen : p (interface_of line) ≡ none = sym (ports.found (interface_of line)) ∙ f in
            stays true (disconnection_unknown line m usbs h f) (rw (refused, h, seen))
        | inr (e, f) ↦
            let seen : p (interface_of line) ≡ some e = sym (ports.found (interface_of line)) ∙ f in
            elim (Bool-cases e.is_empty) [
              | inl t ↦
                  stays true (disconnection_empty line m usbs h e f t) (rw (refused, h, seen, t))
              | inr used ↦ elim (Bool-cases e.is_storage_device) [
                | inl t ↦ departs h e f used t
                | inr t ↦
                    stays true (disconnection_other line m usbs h e f t)
                      (rw (refused, h, seen, used, t))
              ]
            ]
      ]
    ]
