-- ===== src/StdMap/Same.antt =====
-- A map is determined by what `find` sees: its order is that of the keys.
use storing_devices_logs_tfm.Base.{
  true, [], ◌∷◌, ◌≡◌, refl, arith, Bytes, equal, equal_refl, less_total, equal_iff, some, none,
  less, Bool-cases, inl, inr, if◌then◌else◌,
}
use storing_devices_logs_tfm.StdMap.{StdMap, find, IsSorted, Above}
use storing_devices_logs_tfm.StdMap.Order.{find-Above, Above-trans}

module _ {ℓ} {V : Type ℓ} where
  pub find_first : (k : Bytes) (v : V) (m : StdMap V) → find k ((k, v) ∷ m) ≡ some v
  unfolding find
  find_first k v m = ground (arith, equal_refl k)

  find_before :
      (j k : Bytes) (v : V) (m : StdMap V)
      → less j k ≡ true
      → Above k m
      → find j ((k, v) ∷ m) ≡ none
  find_before j k v m h a = find-Above j ((k, v) ∷ m) (h, Above-trans j k m h a)

  pub find_tail :
      (i k : Bytes) (v : V) (m : StdMap V)
      → IsSorted ((k, v) ∷ m)
      → find i m ≡ (if equal k i then none else find i ((k, v) ∷ m))
  unfolding find
  find_tail i k v m s = ground (arith, equal_iff k i, find-Above k m s.0)

  heads :
      (j k : Bytes) (v w : V) (a b : StdMap V)
      → IsSorted ((j, v) ∷ a)
      → IsSorted ((k, w) ∷ b)
      → ((i : Bytes) → find i ((j, v) ∷ a) ≡ find i ((k, w) ∷ b))
      → j ≡ k
  heads j k v w a b s t same =
      less_total j k
        (elim (Bool-cases (less j k)) [
          | inr h ↦ h
          | inl h ↦ absurd (cc (find_first j v a, same j, find_before j k w b h t.0))
        ])
        (elim (Bool-cases (less k j)) [
          | inr h ↦ h
          | inl h ↦ absurd (cc (find_first k w b, same k, find_before k j v a h s.0))
        ])

  pub find_ext :
      (a b : StdMap V) → IsSorted a → IsSorted b → ((k : Bytes) → find k a ≡ find k b) → a ≡ b
  unfolding find
  find_ext [] [] s t same = refl
  find_ext [] ((k, w) ∷ b) s t same = absurd (cc (find_first k w b, same k))
  find_ext ((j, v) ∷ a) [] s t same = absurd (cc (find_first j v a, same j))
  find_ext ((j, v) ∷ a) ((k, w) ∷ b) s t same =
      let e : j ≡ k = heads j k v w a b s t same in
      let f : v ≡ w = cc (find_first j v a, same j, find_first k w b, e) in
      let tails : a ≡ b =
        find_ext a b s.1 t.1
          (λ i. ground (arith, find_tail i j v a s, find_tail i k w b t, same i, e)) in
      cc (e, f, tails)
