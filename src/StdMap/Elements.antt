-- ===== src/StdMap/Elements.antt =====
-- A property of all the elements, under the operations.
use storing_devices_logs_tfm.Base.{
  [], ◌∷◌, ◌≡◌, sym, subst, arith, inl, inr, Bytes, equal, equal_iff, Bool-cases, some, All,
}
use storing_devices_logs_tfm.StdMap.{StdMap, find, insert}
use storing_devices_logs_tfm.StdMap.Replace.{set}

module _ {ℓ} {V : Type ℓ} (P : Bytes × V → Type 0) where
  pub All-find : (k : Bytes) (v : V) (m : StdMap V) → All P m → find k m ≡ some v → P (k, v)
  unfolding find
  All-find k v [] a e = absurd (cc e)
  All-find k v ((j, w) ∷ m) a e = elim (Bool-cases (equal j k)) [
    | inl t ↦
        subst (λ i. P (i, v)) ((equal_iff j k).0 t)
          (subst (λ u. P (j, u)) (ground (arith, e, t)) a.0)
    | inr f ↦ All-find k v m a.1 (ground (arith, e, f))
  ]

  pub All-insert : (k : Bytes) (v : V) (m : StdMap V) → P (k, v) → All P m → All P (insert k v m)
  unfolding insert
  All-insert k v [] p a = (p, tt)
  All-insert k v ((j, w) ∷ m) p a = ground (arith, All-insert k v m p a.1)

  pub All-set : (k : Bytes) (v : V) (m : StdMap V) → P (k, v) → All P m → All P (set k v m)
  All-set k v [] p a = tt
  All-set k v ((j, w) ∷ m) p a = elim (Bool-cases (equal j k)) [
    | inl t ↦ rw t (subst (λ i. P (i, v)) (sym ((equal_iff j k).0 t)) p, a.1)
    | inr f ↦ rw f (a.0, All-set k v m p a.1)
  ]
