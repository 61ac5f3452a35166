-- ===== src/Usb/Log/Events/Origins.antt =====
-- The lines of the log that the times come from which getUSBsInfo returns.
use storing_devices_logs_tfm.Base.{
  true, ◌≡◌, ◌⊎◌, inl, inr, sym, subst, ◌∙◌, arith, List, [], ◌∷◌, some, Option, Bytes,
  Option-cases, All, done, ◌>>=◌, >>=-eq-done,
}
use storing_devices_logs_tfm.Regex.{regex_search, is_found}
use storing_devices_logs_tfm.StdMap.{find}
use storing_devices_logs_tfm.Usb.{UsbInfo, Usbs}
use storing_devices_logs_tfm.Usb.Text.{
  storage_regex, usb_regex, new_usb_regex, disconnection_found_regex,
}
use storing_devices_logs_tfm.Usb.Checks.{date_of}
use storing_devices_logs_tfm.Usb.Information.{IsReadable}
use storing_devices_logs_tfm.Usb.Log.{start, lines_of, get_usbs_info}
use storing_devices_logs_tfm.Usb.Log.Run.{start-IsWellFormed}
use storing_devices_logs_tfm.Usb.Log.Save.{reusing}
use storing_devices_logs_tfm.Usb.Log.Save.Reference.{record_all}
use storing_devices_logs_tfm.Usb.Log.Save.Loop.{save-reusing}
use storing_devices_logs_tfm.Usb.Log.Events.{
  Event, stores, says, nothing, read_note, read_event, read_events, usb_line,
}
use storing_devices_logs_tfm.Usb.Log.Events.Order.{machine_of, machine_of-Represents}
use storing_devices_logs_tfm.Usb.Log.Events.Whole.{process_lines-machine}
use storing_devices_logs_tfm.Usb.Log.Events.Saved.{record_all-AreBetween}
use storing_devices_logs_tfm.Usb.Log.Events.Sources.{
  Plugs, Unplugs, IsBetween, HasSources, SomeEvent, run-HasSources,
}

-- The line is about a new device, or about one that is disconnected, and has that time.
abbrev pub IsNewAt : Bytes → Bytes → Type 0
IsNewAt t line = (is_found (regex_search new_usb_regex line) ≡ true) × (date_of line ≡ t)

abbrev pub IsGoneAt : Bytes → Bytes → Type 0
IsGoneAt t line =
    (is_found (regex_search disconnection_found_regex line) ≡ true) × (date_of line ≡ t)

abbrev pub SomeLine : (Bytes → Type 0) → List Bytes → Type 0
SomeLine R [] = ⊥
SomeLine R (line ∷ lines) = R line ⊎ SomeLine R lines

-- What an event says, its line says.
read_event-usb :
    (line : Bytes) (e : Event)
    → read_event line ≡ done e
    → ((t : Bytes) → Plugs e t → IsNewAt t line) × ((t : Bytes) → Unplugs e t → IsGoneAt t line)
unfolding read_event
read_event-usb line nothing h = (λ t p. absurd p, λ t p. absurd p)
read_event-usb line (stores id) h = (λ t p. absurd p, λ t p. absurd p)
read_event-usb line (says u) h = elim (Option-cases (regex_search storage_regex line)) [
  | inr (found, k) ↦ absurd (ground (arith, k, h))
  | inl k ↦ elim (Option-cases (regex_search usb_regex line)) [
    | inl f ↦ absurd (ground (arith, k, f, h))
    | inr (found, f) ↦
        let read : read_note line >>= (λ n. done (says (usb_line line n))) ≡ done (says u) =
          ground (arith, k, f, h) in
        let (n, r, e) = >>=-eq-done (read_note line) _ read in
        let same : usb_line line n ≡ u = cc (e) in
        (
          λ t p. (ground (arith, same, p.1), ground (arith, same, p.2)),
          λ t p. (ground (arith, same, p.0), ground (arith, same, p.1)),
        )
  ]
]

some_line :
    (R : Event → Type 0) (S : Bytes → Type 0) (lines : List Bytes) (es : List Event)
    → ((line : Bytes) (e : Event) → read_event line ≡ done e → R e → S line)
    → read_events lines ≡ done es
    → SomeEvent R es
    → SomeLine S lines
unfolding read_events
some_line R S [] [] h r s = s
some_line R S [] (e ∷ es) h r s = absurd (cc (r))
some_line R S (line ∷ lines) es h r s =
    let (e, read, rest) = >>=-eq-done (read_event line) _ r in
    let (es', reads, listed) = >>=-eq-done (read_events lines) _ rest in
    let same : es ≡ e ∷ es' = cc (listed) in
    let t : SomeEvent R (e ∷ es') = subst (SomeEvent R) same s in
    elim t [ inl x ↦ inl (h line e read x) | inr x ↦ inr (some_line R S lines es' h reads x) ]

-- The times of a device come from lines of the log.
abbrev pub ComesFrom : List Bytes → UsbInfo → Type 0
ComesFrom lines u = IsBetween (λ t. SomeLine (IsNewAt t) lines) (λ t. SomeLine (IsGoneAt t) lines) u

start-HasSources : (P Q : Bytes → Type 0) → HasSources P Q (machine_of start)
unfolding find
start-HasSources P Q = record {
  since = λ k e f used. absurd (cc (f));
  between = λ k u f. absurd (cc (f));
}

module _ (syslog : Option Bytes) (readable : All IsReadable (lines_of syslog)) where
  -- If every line of the log that announces a device has its numbers, getUSBsInfo with an
  -- allocator that hands the freed node back returns a map in which each connection time of a
  -- device is the time of a line of the log about a new device, and each disconnection time is
  -- that of a line about a disconnection.
  pub get_usbs_info-origins :
      (usbs : Usbs) × (get_usbs_info reusing syslog ≡ done usbs)
      × ((k : Bytes) (u : UsbInfo) → find k usbs ≡ some u → ComesFrom (lines_of syslog) u)
  unfolding get_usbs_info
  get_usbs_info-origins =
      let lines = lines_of syslog in
      let (es, read, ran) =
        process_lines-machine lines start (machine_of start) readable
          (machine_of-Represents start start-IsWellFormed) in
      let (t, processed, shown) = ran in
      let ports = shown.interfaces_shown in
      let devices = shown.usbs_shown in
      let new = λ (x : Bytes) (s : SomeEvent (λ e. Plugs e x) es).
        some_line (λ e. Plugs e x) (IsNewAt x) lines es (λ line e r. (read_event-usb line e r).0 x)
          read s in
      let gone = λ (x : Bytes) (s : SomeEvent (λ e. Unplugs e x) es).
        some_line (λ e. Unplugs e x) (IsGoneAt x) lines es
          (λ line e r. (read_event-usb line e r).1 x) read s in
      let sources =
        run-HasSources (λ x. SomeLine (IsNewAt x) lines) (λ x. SomeLine (IsGoneAt x) lines) es
          (machine_of start) new gone (start-HasSources _ _) in
      (
        record_all t.interfaces t.usbs,
        rw (processed, save-reusing t.interfaces t.usbs ports.sorted devices.sorted),
        record_all-AreBetween (λ x. SomeLine (IsNewAt x) lines) (λ x. SomeLine (IsGoneAt x) lines)
            t.interfaces t.usbs ports.sorted devices.sorted
            (λ k e f used. sources.since k e (sym (ports.found k) ∙ f) used)
            (λ k u f. sources.between k u (sym (devices.found k) ∙ f)),
      )
