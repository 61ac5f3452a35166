-- ===== src/StdMap.antt =====
-- `std::map<std::string, V>`: the elements in the order of their keys. `insert` keeps an element
-- that is there; `erase` takes the element that an iterator points to, given here by its key.
-- `replace` is usb.cpp's replaceInUSBsMap and replaceInInterfacesMap, one text at two types.
pub mod Order
pub mod Lookup
pub mod Replace
pub mod Elements
pub mod Same
use storing_devices_logs_tfm.Base.{
  ℕ, Bool, true, false, List, [], ◌∷◌, map, Option, none, some, ◌≡◌, if◌then◌else◌, Bytes, equal,
  less, All, Outcome, done, fault, invalid_iterator, ◌>>=◌, or_fault,
}

abbrev pub StdMap {ℓ} : Type ℓ → Type ℓ
StdMap V = List (Bytes × V)

module _ {ℓ} {V : Type ℓ} where
  abbrev pub empty : StdMap V
  empty = []

  unfoldable pub find : Bytes → StdMap V → Option V
  find k [] = none
  find k ((j, v) ∷ m) = if equal j k then some v else find k m

  abbrev pub is_some : Option V → Bool
  is_some none = false
  is_some (some v) = true

  -- `find(k) != end()`, and `count(k) > 0`.
  abbrev pub contains : Bytes → StdMap V → Bool
  contains k m = is_some (find k m)

  unfoldable pub insert : Bytes → V → StdMap V → StdMap V
  insert k v [] = (k, v) ∷ []
  insert k v ((j, w) ∷ m) =
      if less k j then (k, v) ∷ (j, w) ∷ m else (j, w) ∷ (if less j k then insert k v m else m)

  unfoldable pub erase : Bytes → StdMap V → StdMap V
  erase k [] = []
  erase k ((j, w) ∷ m) = if equal j k then m else (j, w) ∷ erase k m

  -- `it = find(key)`, `it->second`, `erase(it)`, `insert({key, value})`.
  unfoldable pub replace : Bytes → V → StdMap V → Outcome (StdMap V)
  replace k v m = do old ← or_fault (find k m) invalid_iterator; done (insert k v (erase k m))

  abbrev pub keys : StdMap V → List Bytes
  keys = map λ e. e.0

  -- Every key of `m` comes behind `k`.
  abbrev pub Above : Bytes → StdMap V → Type ℓ
  Above k [] = Unit
  Above k ((j, v) ∷ m) = (less k j ≡ true) × Above k m

  abbrev pub IsSorted : StdMap V → Type ℓ
  IsSorted [] = Unit
  IsSorted ((k, v) ∷ m) = Above k m × IsSorted m
