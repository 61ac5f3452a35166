-- ===== src/Usb/Safety.antt =====
-- What a check can do to the map of interfaces.
use storing_devices_logs_tfm.Base.{
  inl, inr, true, ◌≡◌, ◌≢◌, refl, arith, some, Bytes, equal_iff, Option-cases,
}
use storing_devices_logs_tfm.StdMap.{find, insert, contains, IsSorted, StdMap}
use storing_devices_logs_tfm.StdMap.Order.{insert-IsSorted}
use storing_devices_logs_tfm.StdMap.Lookup.{find-insert}
use storing_devices_logs_tfm.StdMap.Replace.{set, find-set, set-IsSorted}
use storing_devices_logs_tfm.Usb.{UsbInterface, Interfaces}

-- One operation on the element `id`: the order and the other elements stay.
pub record Touches (id : Bytes) (before after : Interfaces) : Type 0 where
  pub sorted : IsSorted after
  pub others : (k : Bytes) → k ≢ id → find k after ≡ find k before

pub Touches-refl : (id : Bytes) (m : Interfaces) → IsSorted m → Touches id m m
Touches-refl id m s = record { sorted = s; others = λ k ne. refl }

pub set-Touches :
    (id : Bytes) (e w : UsbInterface) (m : Interfaces)
    → IsSorted m
    → find id m ≡ some w
    → Touches id m (set id e m)
set-Touches id e w m s f = record {
  sorted = set-IsSorted id e m s;
  others = λ k ne. ground (arith, find-set k id e w m f, equal_iff id k, ne);
}

pub insert-Touches :
    (id : Bytes) (e : UsbInterface) (m : Interfaces) → IsSorted m → Touches id m (insert id e m)
insert-Touches id e m s = record {
  sorted = insert-IsSorted id e m s;
  others = λ k ne. ground (arith, find-insert k id e m s, equal_iff id k, ne);
}

pub find-contains :
    {V : Type 0} (k : Bytes) (m : StdMap V) → contains k m ≡ true → (v : V) × (find k m ≡ some v)
find-contains k m h = elim (Option-cases (find k m)) [
  | inl e ↦ absurd (ground (arith, e))
  | inr (v, e) ↦ (v, e)
]
