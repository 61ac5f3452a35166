-- ===== src/Usb/Log/Events/Sources.antt =====
-- Where the times come from that the machine keeps.
use storing_devices_logs_tfm.Base.{
  true, false, ◌≡◌, ◌⊎◌, inl, inr, refl, sym, subst, ap, ◌∙◌, arith, List, [], ◌∷◌, some, none,
  Option, Bytes, equal, Bool-cases, Option-cases, All, All-append,
}
use storing_devices_logs_tfm.Usb.{UsbInterface, UsbInfo, initialized}
use storing_devices_logs_tfm.Usb.Storage.{stored}
use storing_devices_logs_tfm.Usb.Log.Events.{
  Event, stores, says, nothing, Note, numbers, serial, product, maker, UsbLine, Table, write,
  change, noted, accepts, attach, plugged, register, session, leaving, vacate, Machine, step, run,
}
use storing_devices_logs_tfm.Usb.Log.Events.Simulate.{ports_accepted, ports_refused}

-- The event is a new device, or a device that leaves, at that time.
abbrev pub Plugs : Event → Bytes → Type 0
Plugs nothing t = ⊥
Plugs (stores id) t = ⊥
Plugs (says u) t = (k : Bytes) × (u.new_port ≡ some k) × (u.time ≡ t)

abbrev pub Unplugs : Event → Bytes → Type 0
Unplugs nothing t = ⊥
Unplugs (stores id) t = ⊥
Unplugs (says u) t = (u.leaves ≡ true) × (u.time ≡ t)

-- A port in use since a time of `P`, a device with its times in `P` and `Q`.
abbrev pub IsSince : (Bytes → Type 0) → Table UsbInterface → Type 0
IsSince P p =
    (k : Bytes) (e : UsbInterface) → p k ≡ some e → e.is_empty ≡ false → P e.connection_time

abbrev pub IsBetween : (Bytes → Type 0) → (Bytes → Type 0) → UsbInfo → Type 0
IsBetween P Q u = All P u.connection_times × All Q u.disconnection_times

abbrev pub AreBetween : (Bytes → Type 0) → (Bytes → Type 0) → Table UsbInfo → Type 0
AreBetween P Q d = (k : Bytes) (u : UsbInfo) → d k ≡ some u → IsBetween P Q u

module _ (P : Bytes → Type 0) (p : Table UsbInterface) (since : IsSince P p) where
  write-IsSince :
      (k : Bytes) (v : UsbInterface)
      → (v.is_empty ≡ false → P v.connection_time)
      → IsSince P (write k v p)
  write-IsSince k v h j e f used = elim (Bool-cases (equal k j)) [
    | inl t ↦
        let same : v ≡ e = ground (arith, t, f) in
        subst (λ (x : UsbInterface). P x.connection_time) same
          (h (ap (λ (x : UsbInterface). x.is_empty) same ∙ used))
    | inr t ↦ since j e (ground (arith, t, f)) used
  ]

  change-IsSince :
      (k : Bytes) (g : UsbInterface → UsbInterface)
      → ((e : UsbInterface) → (g e).is_empty ≡ e.is_empty)
      → ((e : UsbInterface) → (g e).connection_time ≡ e.connection_time)
      → IsSince P (change k g p)
  change-IsSince k g a b j e f used = elim (Option-cases (p k)) [
    | inl n ↦ since j e (ground (arith, n, f)) used
    | inr (x, n) ↦
        write-IsSince k (g x) (λ u. subst P (sym (b x)) (since k x n (sym (a x) ∙ u))) j e
          (ground (arith, n, f)) used
  ]

  noted-IsSince : (k : Bytes) (n : Option Note) → IsSince P (change k (noted n) p)
  noted-IsSince k none = change-IsSince k (noted none) (λ e. refl) (λ e. refl)
  noted-IsSince k (some (numbers v q)) =
      change-IsSince k (noted (some (numbers v q))) (λ e. refl) (λ e. refl)
  noted-IsSince k (some (serial s)) =
      change-IsSince k (noted (some (serial s))) (λ e. refl) (λ e. refl)
  noted-IsSince k (some (product s)) =
      change-IsSince k (noted (some (product s))) (λ e. refl) (λ e. refl)
  noted-IsSince k (some (maker s)) =
      change-IsSince k (noted (some (maker s))) (λ e. refl) (λ e. refl)

  attach-IsSince :
      (t : Bytes) (n : Option Bytes) → ((k : Bytes) → n ≡ some k → P t) → IsSince P (attach t n p)
  attach-IsSince t none h = since
  attach-IsSince t (some k) h =
      write-IsSince k (plugged t (p k)) (λ used. subst P (sym (plugged_time (p k))) (h k refl))
    where
      plugged_time : (o : Option UsbInterface) → (plugged t o).connection_time ≡ t
      plugged_time none = refl
      plugged_time (some e) = refl

  vacate-IsSince : (k : Bytes) (o : Option UsbInterface) → IsSince P (vacate k o p)
  vacate-IsSince k none = since
  vacate-IsSince k (some x) = write-IsSince k initialized (λ used. absurd (cc (used)))

module _ (P Q : Bytes → Type 0) (t : Bytes) where
  session-IsBetween :
      (e : UsbInterface) (o : Option UsbInfo)
      → P e.connection_time
      → Q t
      → ((u : UsbInfo) → o ≡ some u → IsBetween P Q u)
      → IsBetween P Q (session t e o)
  session-IsBetween e none c l h = ((c, tt), (l, tt))
  session-IsBetween e (some u) c l h = (
    All-append P u.connection_times (e.connection_time ∷ []) (h u refl).0 (c, tt),
    All-append Q u.disconnection_times (t ∷ []) (h u refl).1 (l, tt),
  )

  register-AreBetween :
      (o : Option UsbInterface) (d : Table UsbInfo)
      → AreBetween P Q d
      → ((e : UsbInterface) → o ≡ some e → P e.connection_time × Q t)
      → AreBetween P Q (register t o d)
  register-AreBetween none d between h k u f = between k u f
  register-AreBetween (some e) d between h k u f = elim (Bool-cases (equal e.serial_number k)) [
    | inr n ↦ between k u (ground (arith, n, f))
    | inl n ↦
        let same : session t e (d e.serial_number) ≡ u = ground (arith, n, f) in
        let (c, l) = h e refl in
        subst (IsBetween P Q) same
          (session-IsBetween e (d e.serial_number) c l (between e.serial_number))
  ]

-- Only a device in use leaves, by a line that says so.
leaving-IsSince :
    (P : Bytes → Type 0) (u : UsbLine) (p : Table UsbInterface) (e : UsbInterface)
    → IsSince P p
    → leaving u p ≡ some e
    → P e.connection_time × (u.leaves ≡ true)
leaving-IsSince P u p e since h = elim (Option-cases (p u.port)) [
  | inl n ↦ absurd (ground (arith, n, h))
  | inr (x, n) ↦
      let same : x ≡ e = ground (arith, n, h) in
      let used : x.is_empty ≡ false = ground (arith, n, h) in
      (
        subst (λ (x : UsbInterface). P x.connection_time) same (since u.port x n used),
        ground (arith, n, h),
      )
]

pub record HasSources (P Q : Bytes → Type 0) (m : Machine) : Type 0 where
  pub since : IsSince P m.ports
  pub between : AreBetween P Q m.devices

step-HasSources :
    (P Q : Bytes → Type 0) (e : Event) (m : Machine)
    → ((t : Bytes) → Plugs e t → P t)
    → ((t : Bytes) → Unplugs e t → Q t)
    → HasSources P Q m
    → HasSources P Q (step e m)
step-HasSources P Q nothing m a b h = h
step-HasSources P Q (stores id) m a b h = record {
  since = change-IsSince P m.ports h.since id stored (λ e. refl) (λ e. refl);
  between = h.between;
}
step-HasSources P Q (says u) m a b h = record {
  since = elim (Bool-cases (accepts u.new_port q)) [
    | inl t ↦
        subst (IsSince P) (sym (ports_accepted u m.ports t))
          (attach-IsSince P q noted_since u.time u.new_port (λ k e. a u.time (k, e, refl)))
    | inr t ↦
        subst (IsSince P) (sym (ports_refused u m.ports t))
          (vacate-IsSince P q noted_since u.port (leaving u q))
  ];
  between =
      register-AreBetween P Q u.time (leaving u q) m.devices h.between (λ e l.
        let (c, gone) = leaving-IsSince P u q e noted_since l in (c, b u.time (gone, refl)));
}
  where
    q : Table UsbInterface
    q = change u.port (noted u.note) m.ports

    noted_since : IsSince P q
    noted_since = noted-IsSince P m.ports h.since u.port u.note

abbrev pub SomeEvent : (Event → Type 0) → List Event → Type 0
SomeEvent R [] = ⊥
SomeEvent R (e ∷ es) = R e ⊎ SomeEvent R es

pub run-HasSources :
    (P Q : Bytes → Type 0) (es : List Event) (m : Machine)
    → ((t : Bytes) → SomeEvent (λ e. Plugs e t) es → P t)
    → ((t : Bytes) → SomeEvent (λ e. Unplugs e t) es → Q t)
    → HasSources P Q m
    → HasSources P Q (run es m)
run-HasSources P Q [] m a b h = h
run-HasSources P Q (e ∷ es) m a b h =
    run-HasSources P Q es (step e m) (λ t s. a t (inr s)) (λ t s. b t (inr s))
      (step-HasSources P Q e m (λ t s. a t (inl s)) (λ t s. b t (inl s)) h)
