-- ===== src/Disk/Map.antt =====
-- The map of getDisksInfo against what each disk answers.
use storing_devices_logs_tfm.Base.{
  ◌≡◌, ◌≢◌, refl, ap, ◌∙◌, arith, ◌⊎◌, inl, inr, List, [], ◌∷◌, none, some, Bytes, equal_iff,
  Option-cases, All,
}
use storing_devices_logs_tfm.StdMap.{StdMap, IsSorted, find, insert}
use storing_devices_logs_tfm.StdMap.Order.{insert-IsSorted}
use storing_devices_logs_tfm.StdMap.Lookup.{find-insert}
use storing_devices_logs_tfm.StdMap.Elements.{All-find, All-insert}
use storing_devices_logs_tfm.Disk.{HardDiskInfo}
use storing_devices_logs_tfm.Disk.Names.{get_disks_set}
use storing_devices_logs_tfm.Disk.Info.{Device, get_info_from_disk, insert_all, get_disks_info}
use storing_devices_logs_tfm.Disk.Set.{Has, IsNamed, get_disks_set-IsNamed}

find-nil : (k : Bytes) → find {V = HardDiskInfo} k [] ≡ none
unfolding find
find-nil k = refl

module _ (devices : Bytes → Device) where
  -- The element under a path is that disk's.
  abbrev Right : Bytes × HardDiskInfo → Type 0
  Right (k, i) = i ≡ (get_info_from_disk (devices k)).0

  insert_all-IsSorted :
      (ks : List Bytes) (m : StdMap HardDiskInfo)
      → IsSorted m
      → All Right m
      → IsSorted (insert_all devices ks m) × All Right (insert_all devices ks m)
  unfolding insert_all
  insert_all-IsSorted [] m s r = (s, r)
  insert_all-IsSorted (k ∷ ks) m s r =
      insert_all-IsSorted ks _ (insert-IsSorted k _ m s) (All-insert Right k _ m refl r)

  insert_all-miss :
      (k : Bytes) (ks : List Bytes) (m : StdMap HardDiskInfo)
      → IsSorted m
      → ¬ Has k ks
      → find k m ≡ none
      → find k (insert_all devices ks m) ≡ none
  unfolding insert_all
  insert_all-miss k [] m s h n = n
  insert_all-miss k (j ∷ ks) m s h n =
      insert_all-miss k ks _ (insert-IsSorted j _ m s) (λ x. h (inr x))
        (ground (
          arith,
          find-insert k j (get_info_from_disk (devices j)).0 m s,
          n,
          equal_iff j k,
          λ (e : j ≡ k). h (inl e),
        ))

  still :
      (k j : Bytes) (ks : List Bytes) (m : StdMap HardDiskInfo)
      → IsSorted m
      → Has k (j ∷ ks) ⊎ (find k m ≢ none)
      → Has k ks ⊎ (find k (insert j (get_info_from_disk (devices j)).0 m) ≢ none)
  still k j ks m s (inl (inl e)) =
      inr (ground (arith, find-insert k j (get_info_from_disk (devices j)).0 m s, equal_iff j k))
  still k j ks m s (inl (inr h)) = inl h
  still k j ks m s (inr h) =
      inr (ground (arith, find-insert k j (get_info_from_disk (devices j)).0 m s, equal_iff j k))

  insert_all-hit :
      (k : Bytes) (ks : List Bytes) (m : StdMap HardDiskInfo)
      → IsSorted m
      → Has k ks ⊎ (find k m ≢ none)
      → find k (insert_all devices ks m) ≢ none
  unfolding insert_all
  insert_all-hit k [] m s (inl h) = absurd h
  insert_all-hit k [] m s (inr h) = h
  insert_all-hit k (j ∷ ks) m s h =
      insert_all-hit k ks _ (insert-IsSorted j _ m s) (still k j ks m s h)

  -- The map of getDisksInfo is in the order of the paths. A path that an entry of /dev names has
  -- what getInfoFromDisk returns for it, and no other path is in the map.
  pub get_disks_info-IsNamed :
      (entries : List Bytes)
      → IsSorted (get_disks_info (some entries) devices)
        × ((k : Bytes)
            → IsNamed k entries
            → find k (get_disks_info (some entries) devices)
              ≡ some (get_info_from_disk (devices k)).0)
        × ((k : Bytes)
            → ¬ IsNamed k entries
            → find k (get_disks_info (some entries) devices) ≡ none)
  unfolding get_disks_info
  get_disks_info-IsNamed entries =
      let ks = get_disks_set (some entries) in
      let (sorted, right) = insert_all-IsSorted ks [] tt tt in
      let named = (get_disks_set-IsNamed entries).1 in
      (
        sorted,
        λ k n. elim (Option-cases (find k (insert_all devices ks []))) [
          | inl e ↦ absurd (insert_all-hit k ks [] tt (inl ((named k).1 n)) e)
          | inr (i, e) ↦ e ∙ ap some (All-find Right k i _ right e)
        ],
        λ k n. insert_all-miss k ks [] tt (λ h. n ((named k).0 h)) (find-nil k),
      )
