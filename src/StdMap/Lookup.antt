-- ===== src/StdMap/Lookup.antt =====
-- What `find` sees after `insert` and `erase`.
use storing_devices_logs_tfm.Base.{
  [], ◌∷◌, ◌≡◌, refl, arith, Bytes, equal, less_total, equal_iff, some, none, if◌then◌else◌, Option,
  less_irrefl,
}
use storing_devices_logs_tfm.StdMap.{StdMap, find, insert, erase, IsSorted}
use storing_devices_logs_tfm.StdMap.Order.{find-Above, Above-trans}

module _ {ℓ} {V : Type ℓ} where
  -- The value under a key after an `insert`: the old one, if there is one.
  abbrev pub kept : Option V → V → V
  kept none v = v
  kept (some w) v = w

  pub find-insert :
      (j k : Bytes) (v : V) (m : StdMap V)
      → IsSorted m
      → find j (insert k v m) ≡ (if equal k j then some (kept (find k m) v) else find j m)
  unfolding find insert
  find-insert j k v [] s = refl
  find-insert j k v ((i, w) ∷ m) s = ground (
    arith,
    find-insert j k v m s.1,
    equal_iff i k,
    equal_iff i j,
    equal_iff k j,
    less_total k i,
    less_irrefl k,
    find-Above k m,
    Above-trans k i m,
  )

  pub find-erase :
      (j k : Bytes) (m : StdMap V)
      → IsSorted m
      → find j (erase k m) ≡ (if equal k j then none else find j m)
  unfolding find erase
  find-erase j k [] s = ground arith
  find-erase j k ((i, w) ∷ m) s =
      ground (
        arith,
        find-erase j k m s.1,
        equal_iff i k,
        equal_iff i j,
        equal_iff k j,
        find-Above i m s.0,
      )
