-- ===== src/Usb/Log/Events/Commute.antt =====
-- Two events at different ports.
use storing_devices_logs_tfm.Base.{
  true, false, Bool, ◌≡◌, ◌≢◌, ◌⊎◌, inl, inr, refl, ap, ◌∙◌, arith, [], some, none, Option, Bytes,
  equal_iff, if◌then◌else◌,
}
use storing_devices_logs_tfm.Usb.{UsbInterface, UsbInfo}
use storing_devices_logs_tfm.Usb.Storage.{stored}
use storing_devices_logs_tfm.Usb.Log.Events.{
  Event, stores, says, nothing, UsbLine, Table, change, noted, accepts, is_free, attach, vacate,
  leaving, register, ports_after, devices_after,
}

-- The ports that an event reads and writes.
abbrev pub Touched : Event → Bytes → Type 0
Touched nothing k = ⊥
Touched (stores id) k = k ≡ id
Touched (says u) k = (k ≡ u.port) ⊎ (u.new_port ≡ some k)

-- The storage device that leaves.
abbrev pub departing : Event → Table UsbInterface → Option UsbInterface
departing nothing p = none
departing (stores id) p = none
departing (says u) p = leaving u (change u.port (noted u.note) p)

abbrev pub time_of : Event → Bytes
time_of nothing = []
time_of (stores id) = []
time_of (says u) = u.time

module _ {V : Type 0} (k : Bytes) (f f' : Table V) where
  change_at : (g : V → V) (j : Bytes) → f k ≡ f' k → f j ≡ f' j → change k g f j ≡ change k g f' j
  change_at g j h e = ground (arith, h, e)

  pub change_off : (g : V → V) (j : Bytes) → j ≢ k → change k g f j ≡ f j
  change_off g j h = ground (arith, h, equal_iff k j)

module _ (u : UsbLine) (p q : Table UsbInterface) where
  accepts_at :
      (n : Option Bytes) → ((k : Bytes) → n ≡ some k → p k ≡ q k) → accepts n p ≡ accepts n q
  accepts_at none h = refl
  accepts_at (some k) h = ap is_free (h k refl)

  attach_at :
      (t : Bytes) (n : Option Bytes) (j : Bytes)
      → ((k : Bytes) → n ≡ some k → p k ≡ q k)
      → p j ≡ q j
      → attach t n p j ≡ attach t n q j
  attach_at t none j h e = e
  attach_at t (some k) j h e = ground (arith, h k refl, e)

  pub attach_off : (t : Bytes) (n : Option Bytes) (j : Bytes) → n ≢ some j → attach t n p j ≡ p j
  attach_off t none j h = refl
  attach_off t (some k) j h = ground (arith, equal_iff k j, λ (e : k ≡ j). h (ap some e))

  leaving_at :
      ((k : Bytes) → u.new_port ≡ some k → p k ≡ q k)
      → p u.port ≡ q u.port
      → leaving u p ≡ leaving u q
  leaving_at h e = rw (accepts_at u.new_port h, e)

  vacate_at :
      (o : Option UsbInterface) (j : Bytes) → p j ≡ q j → vacate u.port o p j ≡ vacate u.port o q j
  vacate_at none j e = e
  vacate_at (some x) j e = ground (arith, e)

  pub vacate_off : (o : Option UsbInterface) (j : Bytes) → j ≢ u.port → vacate u.port o p j ≡ p j
  vacate_off none j h = refl
  vacate_off (some x) j h = ground (arith, equal_iff u.port j, h)

choose_at :
    {V : Type 0} (b b' : Bool) (x x' y y' : Table V) (j : Bytes)
    → b ≡ b'
    → x j ≡ x' j
    → y j ≡ y' j
    → (if b then x else y) j ≡ (if b' then x' else y') j
choose_at b b' x x' y y' j e f g = ground (arith, e, f, g)

choose_off :
    {V : Type 0} (b : Bool) (x y : Table V) (j : Bytes) {v : Option V}
    → x j ≡ v
    → y j ≡ v
    → (if b then x else y) j ≡ v
choose_off true x y j e f = e
choose_off false x y j e f = f

abbrev pub AgreeAt : Event → Table UsbInterface → Table UsbInterface → Type 0
AgreeAt e p q = (k : Bytes) → Touched e k → p k ≡ q k

module _ (u : UsbLine) (p q : Table UsbInterface) (same : AgreeAt (says u) p q) where
  noted_table : Table UsbInterface → Table UsbInterface
  noted_table = change u.port (noted u.note)

  noted_at : (k : Bytes) → Touched (says u) k → noted_table p k ≡ noted_table q k
  unfolding noted_table
  noted_at k t = change_at u.port p q (noted u.note) k (same u.port (inl refl)) (same k t)

  says_at : (j : Bytes) → Touched (says u) j → ports_after (says u) p j ≡ ports_after (says u) q j
  unfolding noted_table
  says_at j t =
      let new = λ (k : Bytes) (e : u.new_port ≡ some k). noted_at k (inr e) in
      let a = accepts_at u (noted_table p) (noted_table q) u.new_port new in
      let l = leaving_at u (noted_table p) (noted_table q) new (noted_at u.port (inl refl)) in
      choose_at (accepts u.new_port (noted_table p)) (accepts u.new_port (noted_table q)) _ _ _ _ j
        a (attach_at u (noted_table p) (noted_table q) u.time u.new_port j new (noted_at j t))
        (ap (λ o. vacate u.port o (noted_table p) j) l
          ∙ vacate_at u (noted_table p) (noted_table q) _ j (noted_at j t))

pub ports_at :
    (e : Event) (p q : Table UsbInterface)
    → AgreeAt e p q
    → (j : Bytes) → Touched e j
    → ports_after e p j ≡ ports_after e q j
ports_at nothing p q same j t = absurd t
ports_at (stores id) p q same j t = change_at id p q stored j (same id refl) (same j t)
ports_at (says u) p q same j t = says_at u p q same j t

pub departing_at :
    (e : Event) (p q : Table UsbInterface) → AgreeAt e p q → departing e p ≡ departing e q
unfolding noted_table
departing_at nothing p q same = refl
departing_at (stores id) p q same = refl
departing_at (says u) p q same =
    leaving_at u (noted_table u p q same p) (noted_table u p q same q)
      (λ k h. noted_at u p q same k (inr h)) (noted_at u p q same u.port (inl refl))

pub ports_off :
    (e : Event) (p : Table UsbInterface) (j : Bytes) → ¬ Touched e j → ports_after e p j ≡ p j
ports_off nothing p j n = refl
ports_off (stores id) p j n = change_off id p p stored j n
ports_off (says u) p j n =
    let q = change u.port (noted u.note) p in
    let before = change_off u.port p p (noted u.note) j (λ e. n (inl e)) in
    choose_off (accepts u.new_port q) _ _ j
      (attach_off u q q u.time u.new_port j (λ e. n (inr e)) ∙ before)
      (vacate_off u q q (leaving u q) j (λ e. n (inl e)) ∙ before)

pub devices-register :
    (e : Event) (p : Table UsbInterface) (d : Table UsbInfo)
    → devices_after e p d ≡ register (time_of e) (departing e p) d
devices-register nothing p d = refl
devices-register (stores id) p d = refl
devices-register (says u) p d = refl
