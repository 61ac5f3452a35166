-- ===== src/Usb/Log/Returns.antt =====
-- A device that the report knows already is plugged in again.
use storing_devices_logs_tfm.Base.{
  true, ◌≡◌, ◌≢◌, refl, sym, ap, ◌∙◌, arith, List, [], ◌∷◌, ◌++◌, some, none, Bytes, done,
  equal_iff,
}
use storing_devices_logs_tfm.StdMap.{find}
use storing_devices_logs_tfm.StdMap.Replace.{set, find-set}
use storing_devices_logs_tfm.Usb.{UsbInterface, UsbInfo, initialized}
use storing_devices_logs_tfm.Usb.Checks.{date_of}
use storing_devices_logs_tfm.Usb.Safety.{set-Touches}
use storing_devices_logs_tfm.Usb.Storage.{connected}
use storing_devices_logs_tfm.Usb.Disconnection.{with_session, first_session}
use storing_devices_logs_tfm.Usb.Log.{State, process_lines}
use storing_devices_logs_tfm.Usb.Log.Run.{lines_then}
use storing_devices_logs_tfm.Usb.Log.Invariant.{IsWellFormed}
use storing_devices_logs_tfm.Usb.Log.Run.{process_lines-Ends}
use storing_devices_logs_tfm.Usb.Log.Lines.{
  IsConnection, IsDisconnection, IsStorage, IsSerial, serial_of, process_connection_again,
}
use storing_devices_logs_tfm.Usb.Log.Disconnects.{process_disconnection_again}
use storing_devices_logs_tfm.Usb.Log.Sessions.{
  lines_step, lines_end, find-set_self, session_of, whole_session, described, with_description,
  with_description-Touches, description_runs,
}

abbrev pub four_lines : Bytes → Bytes → Bytes → Bytes → List Bytes
four_lines a b c d = a ∷ b ∷ c ∷ d ∷ []

-- A known device with one more pair of times.
abbrev pub one_more : Bytes → Bytes → UsbInfo → UsbInfo
one_more new_line gone_line u = record u {
  connection_times = u.connection_times ++ date_of new_line ∷ [];
  disconnection_times = u.disconnection_times ++ date_of gone_line ∷ [];
}

module _ (id new_line serial_line storage_line gone_line : Bytes) (s : State)
    (c : IsConnection id new_line) (n : IsSerial id serial_line) (t : IsStorage id storage_line)
    (d : IsDisconnection id gone_line) (w : IsWellFormed s) (f : UsbInterface)
    (there : find id s.interfaces ≡ some f) (free : f.is_empty ≡ true) (u : UsbInfo)
    (known : find (serial_of n) s.usbs ≡ some u) where
  -- In a well-formed state, for a port that is in the map of interfaces and free, and a serial
  -- number that is in the map of devices, the lines of the connection, the serial number, the
  -- storage announcement and the disconnection of that device on that port are processed without a
  -- fault. Afterwards the device has one more connection and one more disconnection time, each
  -- behind those it had, and is otherwise as it was; the port is free, and no other port and no
  -- other device has changed.
  known_session :
      (r : State) × (process_lines (four_lines new_line serial_line storage_line gone_line) s
        ≡ done r)
      × (find (serial_of n) r.usbs ≡ some (one_more new_line gone_line u))
      × (find id r.interfaces ≡ some initialized)
      × ((k : Bytes) → k ≢ id → find k r.interfaces ≡ find k s.interfaces)
      × ((k : Bytes) → k ≢ serial_of n → find k r.usbs ≡ find k s.usbs)
  known_session =
      let a = connected new_line f in
      let e = described n a in
      let s₁ = record s { interfaces = set id a s.interfaces } in
      let t₁ = set-Touches id a f s.interfaces w.interfaces_sorted there in
      let f₁ = find-set_self id a f s.interfaces there in
      let m = with_description id serial_line storage_line s₁ a n t t₁.sorted f₁ in
      let (t₂, f₂) = with_description-Touches id serial_line storage_line s₁ a n t t₁.sorted f₁ in
      let t₃ = set-Touches id initialized e m t₂.sorted f₂ in
      let v = with_session (date_of gone_line) e u in
      let r : State = record {
        interfaces = set id initialized m;
        usbs = set (serial_of n) v s.usbs;
      } in
      (
        r,
        lines_step new_line (serial_line ∷ storage_line ∷ gone_line ∷ []) s s₁
              (process_connection_again id new_line s f c w.interfaces_sorted there free)
            ∙ description_runs id serial_line storage_line s₁ a n t t₁.sorted f₁ (gone_line ∷ [])
            ∙ lines_step gone_line [] (record s { interfaces = m }) r
                (process_disconnection_again id gone_line (record s { interfaces = m }) e d
                  t₂.sorted f₂ refl refl u w.devices.sorted known)
            ∙ lines_end r,
        find-set_self (serial_of n) v u s.usbs known,
        find-set_self id initialized e m f₂,
        λ k ne. t₃.others k ne ∙ t₂.others k ne ∙ t₁.others k ne,
        λ k ne.
            ground
              (arith, find-set k (serial_of n) v u s.usbs known, equal_iff (serial_of n) k, ne),
      )

module _ (id new_line serial_line storage_line gone_line : Bytes) (s : State)
    (c : IsConnection id new_line) (n : IsSerial id serial_line) (t : IsStorage id storage_line)
    (d : IsDisconnection id gone_line) (new_again serial_again storage_again gone_again : Bytes)
    (c' : IsConnection id new_again) (n' : IsSerial id serial_again)
    (t' : IsStorage id storage_again) (d' : IsDisconnection id gone_again)
    (same : serial_of n ≡ serial_of n') (w : IsWellFormed s) (unused : find id s.interfaces ≡ none)
    (unknown : find (serial_of n) s.usbs ≡ none) where
  -- In a well-formed state, for a port and a serial number that are in neither map, the lines of
  -- two sessions of a device on that port are processed without a fault, if the serial lines of
  -- both give the same number: the device is then in the map under it, with both connection times
  -- and both disconnection times in their order, and with the other fields as the first session
  -- left them.
  pub two_sessions :
      (r : State) × (process_lines
          (four_lines new_line serial_line storage_line gone_line
            ++ four_lines new_again serial_again storage_again gone_again)
          s
        ≡ done r)
      × (find (serial_of n) r.usbs
          ≡ some (
              one_more new_again gone_again
                (first_session (date_of gone_line) (session_of new_line n))))
  two_sessions =
      let first = first_session (date_of gone_line) (session_of new_line n) in
      let lines = four_lines new_line serial_line storage_line gone_line in
      let lines' = four_lines new_again serial_again storage_again gone_again in
      let (q, run, entered, free, x, y) =
        whole_session id new_line serial_line storage_line gone_line s c n t d w unused unknown in
      let well : IsWellFormed q = rw run at (process_lines-Ends lines s w) in
      let (r, again, more, z, z₁, z₂) =
        known_session id new_again serial_again storage_again gone_again q c' n' t' d' well
          initialized free refl first (ap (λ k. find k q.usbs) (sym same) ∙ entered) in
      (r, lines_then lines lines' s q r run again, ap (λ k. find k r.usbs) same ∙ more)
