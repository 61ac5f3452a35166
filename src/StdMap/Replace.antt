-- ===== src/StdMap/Replace.antt =====
-- `replace`, which is replaceInUSBsMap and replaceInInterfacesMap, and the write in place.
use storing_devices_logs_tfm.Base.{
  true, [], ◌∷◌, ◌≡◌, refl, arith, Bytes, equal, less, equal_iff, some, none, if◌then◌else◌,
  less_asym, done, fault, invalid_iterator,
}
use storing_devices_logs_tfm.StdMap.{StdMap, find, insert, erase, replace, keys, Above, IsSorted}

module _ {ℓ} {V : Type ℓ} where
  -- The reference: the value under `k` is overwritten where it stands.
  abbrev pub set : Bytes → V → StdMap V → StdMap V
  set k v [] = []
  set k v ((j, w) ∷ m) = if equal j k then (j, v) ∷ m else (j, w) ∷ set k v m

  insert-Above : (k : Bytes) (v : V) (m : StdMap V) → Above k m → insert k v m ≡ (k, v) ∷ m
  unfolding insert
  insert-Above k v [] a = refl
  insert-Above k v ((i, w) ∷ m) a = ground arith

  find-eq-some-less :
      (i k : Bytes) (w : V) (m : StdMap V) → Above i m → find k m ≡ some w → less i k ≡ true
  unfolding find
  find-eq-some-less i k w [] a e = absurd (cc e)
  find-eq-some-less i k w ((j, u) ∷ m) a e =
      ground (arith, find-eq-some-less i k w m a.1, equal_iff j k)

  insert-erase :
      (k : Bytes) (v w : V) (m : StdMap V)
      → IsSorted m
      → find k m ≡ some w
      → insert k v (erase k m) ≡ set k v m
  unfolding insert erase find
  insert-erase k v w [] s e = absurd (cc e)
  insert-erase k v w ((i, u) ∷ m) s e = ground (
    arith,
    insert-erase k v w m s.1,
    equal_iff i k,
    insert-Above i v m s.0,
    find-eq-some-less i k w m s.0,
    less_asym i k,
  )

  -- On a sorted map that has the key, erasing the element and inserting the new one is the write
  -- of the value in place.
  pub replace-set :
      (k : Bytes) (v w : V) (m : StdMap V)
      → IsSorted m
      → find k m ≡ some w
      → replace k v m ≡ done (set k v m)
  unfolding replace
  replace-set k v w m s e = rw (e, insert-erase k v w m s e)

  -- On a key that is not there, the code dereferences and erases `end()`.
  pub replace_missing :
      (k : Bytes) (v : V) (m : StdMap V) → find k m ≡ none → replace k v m ≡ fault invalid_iterator
  unfolding replace
  replace_missing k v m e = rw e

  pub find-set :
      (j k : Bytes) (v w : V) (m : StdMap V)
      → find k m ≡ some w
      → find j (set k v m) ≡ (if equal k j then some v else find j m)
  unfolding find
  find-set j k v w [] e = absurd (cc e)
  find-set j k v w ((i, u) ∷ m) e =
      ground (arith, find-set j k v w m, equal_iff i k, equal_iff i j, equal_iff k j)

  pub keys-set : (k : Bytes) (v : V) (m : StdMap V) → keys (set k v m) ≡ keys m
  keys-set k v [] = refl
  keys-set k v ((i, u) ∷ m) = ground (arith, keys-set k v m)

  set-Above : (j k : Bytes) (v : V) (m : StdMap V) → Above j m → Above j (set k v m)
  set-Above j k v [] a = tt
  set-Above j k v ((i, u) ∷ m) a = ground (arith, set-Above j k v m a.1)

  pub set-IsSorted : (k : Bytes) (v : V) (m : StdMap V) → IsSorted m → IsSorted (set k v m)
  set-IsSorted k v [] s = tt
  set-IsSorted k v ((i, u) ∷ m) s = ground (arith, set-IsSorted k v m s.1, set-Above i k v m s.0)
