-- ===== src/StdMap/Order.antt =====
-- The order of the keys under the operations.
use storing_devices_logs_tfm.Base.{
  true, [], ◌∷◌, ◌≡◌, refl, arith, Bytes, less, less_trans, less_irrefl, equal_iff, none,
}
use storing_devices_logs_tfm.StdMap.{StdMap, find, insert, erase, Above, IsSorted}

module _ {ℓ} {V : Type ℓ} where
  pub Above-trans : (j k : Bytes) (m : StdMap V) → less j k ≡ true → Above k m → Above j m
  Above-trans j k [] h a = tt
  Above-trans j k ((i, v) ∷ m) h a = (less_trans j k i h a.0, Above-trans j k m h a.1)

  insert-Above :
      (j k : Bytes) (v : V) (m : StdMap V) → less j k ≡ true → Above j m → Above j (insert k v m)
  unfolding insert
  insert-Above j k v [] h a = (h, tt)
  insert-Above j k v ((i, w) ∷ m) h a = ground (arith, insert-Above j k v m h a.1)

  pub insert-IsSorted : (k : Bytes) (v : V) (m : StdMap V) → IsSorted m → IsSorted (insert k v m)
  unfolding insert
  insert-IsSorted k v [] s = (tt, tt)
  insert-IsSorted k v ((i, w) ∷ m) s =
      ground (arith, insert-IsSorted k v m s.1, insert-Above i k v m, Above-trans k i m)

  erase-Above : (j k : Bytes) (m : StdMap V) → Above j m → Above j (erase k m)
  unfolding erase
  erase-Above j k [] a = tt
  erase-Above j k ((i, w) ∷ m) a = ground (arith, erase-Above j k m a.1)

  pub erase-IsSorted : (k : Bytes) (m : StdMap V) → IsSorted m → IsSorted (erase k m)
  unfolding erase
  erase-IsSorted k [] s = tt
  erase-IsSorted k ((i, w) ∷ m) s = ground (arith, erase-IsSorted k m s.1, erase-Above i k m s.0)

  -- A key before all others is not there.
  pub find-Above : (k : Bytes) (m : StdMap V) → Above k m → find k m ≡ none
  unfolding find
  find-Above k [] a = refl
  find-Above k ((i, v) ∷ m) a = ground (arith, find-Above k m a.1, equal_iff i k, less_irrefl k)
