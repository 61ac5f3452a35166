-- ===== src/Usb/Log/Events/Order.antt =====
-- Two lines about different ports, in either order.
use storing_devices_logs_tfm.Base.{
  ◌≡◌, ◌≢◌, ◌⊎◌, inl, inr, refl, sym, ap, ◌∙◌, arith, [], ◌∷◌, some, none, Option, Bytes, equal,
  equal_iff, Bool-cases, done,
}
use storing_devices_logs_tfm.StdMap.{find}
use storing_devices_logs_tfm.StdMap.Same.{find_ext}
use storing_devices_logs_tfm.Usb.{UsbInterface, UsbInfo}
use storing_devices_logs_tfm.Usb.Log.{State, process_lines}
use storing_devices_logs_tfm.Usb.Log.Invariant.{IsWellFormed}
use storing_devices_logs_tfm.Usb.Log.Events.{
  Event, stores, says, nothing, Table, register, ports_after, devices_after, Machine, read_event,
  read_events,
}
use storing_devices_logs_tfm.Usb.Log.Events.Simulate.{Represents, process_lines-run}
use storing_devices_logs_tfm.Usb.Log.Events.Commute.{
  Touched, departing, time_of, ports_at, ports_off, departing_at, devices-register,
}

-- No port is named by both.
abbrev pub AreDisjoint : Event → Event → Type 0
AreDisjoint a b = (k : Bytes) → Touched a k → ¬ Touched b k

-- Devices that leave at both have two serial numbers.
abbrev pub AreApart : Event → Event → Table UsbInterface → Type 0
AreApart a b p =
    (x y : UsbInterface)
    → departing a p ≡ some x
    → departing b p ≡ some y
    → x.serial_number ≢ y.serial_number

is_key : (j k : Bytes) → (j ≡ k) ⊎ (j ≢ k)
is_key j k = elim (Bool-cases (equal j k)) [
  | inl h ↦ inl ((equal_iff j k).0 h)
  | inr h ↦ inr (λ e. cc ((equal_iff j k).1 e, h))
]

is_new : (n : Option Bytes) (k : Bytes) → (n ≡ some k) ⊎ (n ≢ some k)
is_new none k = inr (λ e. cc (e))
is_new (some j) k = elim (is_key j k) [ inl e ↦ inl (ap some e) | inr n ↦ inr (λ e. n (cc (e))) ]

Touched-or-not : (e : Event) (k : Bytes) → Touched e k ⊎ (¬ Touched e k)
Touched-or-not nothing k = inr (λ t. t)
Touched-or-not (stores id) k = is_key k id
Touched-or-not (says u) k = elim (is_key k u.port) [
  | inl e ↦ inl (inl e)
  | inr n ↦ elim (is_new u.new_port k) [
    | inl e ↦ inl (inr e)
    | inr m ↦ inr (λ t. elim t [ inl e ↦ n e | inr e ↦ m e ])
  ]
]

register_commute :
    (s t : Bytes) (x y : Option UsbInterface) (d : Table UsbInfo)
    → ((v w : UsbInterface) → x ≡ some v → y ≡ some w → v.serial_number ≢ w.serial_number)
    → (j : Bytes) → register s x (register t y d) j ≡ register t y (register s x d) j
register_commute s t none y d apart j = refl
register_commute s t (some v) none d apart j = refl
register_commute s t (some v) (some w) d apart j = ground (
  arith,
  apart v w refl refl,
  equal_iff v.serial_number j,
  equal_iff w.serial_number j,
  equal_iff v.serial_number w.serial_number,
  equal_iff w.serial_number v.serial_number,
)

module _ (a b : Event) (p : Table UsbInterface) (disjoint : AreDisjoint a b) where
  behind_second : (j : Bytes) → Touched a j → ports_after b p j ≡ p j
  behind_second j t = ports_off b p j (disjoint j t)

  behind_first : (j : Bytes) → Touched b j → ports_after a p j ≡ p j
  behind_first j t = ports_off a p j (λ s. disjoint j s t)

  ports_commute :
      (j : Bytes) → ports_after a (ports_after b p) j ≡ ports_after b (ports_after a p) j
  ports_commute j = elim (Touched-or-not a j) [
    | inl t ↦
        ports_at a (ports_after b p) p behind_second j t
        ∙ sym (ports_off b (ports_after a p) j (disjoint j t))
    | inr n ↦ ports_off a (ports_after b p) j n ∙ elim (Touched-or-not b j) [
      | inl t ↦ sym (ports_at b (ports_after a p) p behind_first j t)
      | inr m ↦ ports_off b p j m ∙ sym (ports_off b (ports_after a p) j m ∙ ports_off a p j n)
    ]
  ]

  devices_commute :
      (d : Table UsbInfo)
      → AreApart a b p
      → (j : Bytes)
      → devices_after a (ports_after b p) (devices_after b p d) j
        ≡ devices_after b (ports_after a p) (devices_after a p d) j
  devices_commute d apart j =
      let first = departing_at a (ports_after b p) p behind_second in
      let second = departing_at b (ports_after a p) p behind_first in
      rw
        (
          devices-register a (ports_after b p) (devices_after b p d),
          devices-register b p d,
          devices-register b (ports_after a p) (devices_after a p d),
          devices-register a p d,
          first,
          second,
        )
        (register_commute (time_of a) (time_of b) (departing a p) (departing b p) d apart j)

-- The machine whose tables are the lookups in the two maps.
abbrev pub machine_of : State → Machine
machine_of s = record { ports = λ k. find k s.interfaces; devices = λ k. find k s.usbs }

pub machine_of-Represents : (s : State) → IsWellFormed s → Represents s (machine_of s)
machine_of-Represents s w = record {
  interfaces_shown = record { sorted = w.interfaces_sorted; found = λ k. refl };
  usbs_shown = record { sorted = w.devices.sorted; found = λ k. refl };
}

Represents-same :
    (s t : State) (m n : Machine)
    → Represents s m
    → Represents t n
    → ((k : Bytes) → m.ports k ≡ n.ports k)
    → ((k : Bytes) → m.devices k ≡ n.devices k)
    → s ≡ t
Represents-same s t m n r q same alike =
    let i = r.interfaces_shown in
    let j = q.interfaces_shown in
    let u = r.usbs_shown in
    let v = q.usbs_shown in
    let ports : s.interfaces ≡ t.interfaces =
      find_ext _ _ i.sorted j.sorted (λ k. i.found k ∙ same k ∙ sym (j.found k)) in
    let devices : s.usbs ≡ t.usbs =
      find_ext _ _ u.sorted v.sorted (λ k. u.found k ∙ alike k ∙ sym (v.found k)) in
    ground (arith, ports, devices)

module _ (first second : Bytes) (s : State) (a b : Event) where
  -- In a well-formed state, two lines that are read as events with no port in common leave the
  -- same state in either order, if the storage devices that leave by both, where both have one,
  -- differ in their serial numbers.
  pub process_lines_commute :
      IsWellFormed s
      → read_event first ≡ done a
      → read_event second ≡ done b
      → AreDisjoint a b
      → AreApart a b (machine_of s).ports
      → process_lines (first ∷ second ∷ []) s ≡ process_lines (second ∷ first ∷ []) s
  unfolding read_events
  process_lines_commute w e f disjoint apart =
      let m = machine_of s in
      let r = machine_of-Represents s w in
      let (t, forth, shown) =
        process_lines-run (first ∷ second ∷ []) (a ∷ b ∷ []) s m (rw (e, f)) r in
      let (u, back, seen) =
        process_lines-run (second ∷ first ∷ []) (b ∷ a ∷ []) s m (rw (e, f)) r in
      let same : t ≡ u =
        Represents-same t u _ _ shown seen (λ k. sym (ports_commute a b m.ports disjoint k))
          (λ k. sym (devices_commute a b m.ports disjoint m.devices apart k)) in
      forth ∙ ap done same ∙ sym back
