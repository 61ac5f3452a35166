-- ===== src/Disk/Laws.antt =====
-- What getInfoFromDisk returns, and in what state it leaves the descriptor.
use storing_devices_logs_tfm.Base.{
  ℕ, suc, ◌*◌, ◌^◌, ◌<◌, ◌≤◌, true, false, Bool, not, ◌&&◌, ◌≡◌, ◌≢◌, refl, ap, ◌∙◌, arith, ◌⊎◌,
  ◌↔◌, inl, inr, [], ◌∷◌, ◌++◌, none, some, pos, Bytes, length, length-take, length-drop,
  slice-drop, take-append-drop, take, drop, ◌==◌,
}
use native.Mathlib.Nat.{mod-eq_of_lt}
use storing_devices_logs_tfm.Disk.{unsigned_char_to_string}
use storing_devices_logs_tfm.Disk.Info.{
  Device, left_open, blank, identify, nvme_info, size_of, product_size, get_info_from_disk,
}

-- The disk opened and one of the two identification calls succeeded.
abbrev pub IsIdentified : Device → Type 0
IsIdentified d =
    (d.opens ≡ true) × ((d.hdio_get_identity ≢ none) ⊎ (d.nvme_ioctl_admin_cmd (identify d) ≢ none))

-- getInfoFromDisk returns a structure that is not empty exactly if the disk opened and one of the
-- two identification calls succeeded, and an empty one has nothing filled in.
pub get_info_from_disk-is_empty :
    (d : Device)
    → (((get_info_from_disk d).0.is_empty ≡ false) ↔ IsIdentified d)
      × ((get_info_from_disk d).0.is_empty ≡ true → (get_info_from_disk d).0 ≡ blank)
unfolding get_info_from_disk
get_info_from_disk-is_empty d = ground arith

-- getInfoFromDisk leaves the descriptor open exactly if the disk was identified and the first size
-- call succeeded.
pub get_info_from_disk-left_open :
    (d : Device)
    → ((get_info_from_disk d).1 ≡ left_open) ↔ (IsIdentified d × (d.blkgetsize_probe ≡ true))
unfolding get_info_from_disk
get_info_from_disk-left_open d = ground arith

mul_left_cancel : (n a b : ℕ) → suc n * a ≡ suc n * b → a ≡ b
mul_left_cancel n a b h = grind arith

-- The kernel on the size of a disk: the number of its blocks of 512 bytes, which is positive, and
-- the bytes of a sector. BLKGETSIZE64 gives the bytes where the kernel has it.
pub record HasSize (d : Device) (blocks sector : ℕ) : Type 0 where
  pub blocks_given : d.blkgetsize ≡ some (pos (suc blocks))
  pub sector_given : d.blksszget ≡ some (pos (suc sector))
  pub bytes_given : (d.blkgetsize64 ≡ none) ⊎ (d.blkgetsize64 ≡ some (suc blocks * 512))

-- The size in bytes can be asked for, or is the product that is computed in its place.
abbrev pub IsCounted : Device → ℕ → Type 0
IsCounted d sector = (d.blkgetsize64 ≢ none) ⊎ (suc sector ≡ 512)

module _ (d : Device) (blocks sector : ℕ) (h : HasSize d blocks sector)
    (fits : suc blocks * suc sector < 2 ^ 64) where
  size_of_product : d.blkgetsize64 ≡ none → size_of d ≡ some (suc blocks * suc sector)
  unfolding size_of product_size
  size_of_product n = rw (n, h.blocks_given, h.sector_given) (rw (mod-eq_of_lt fits))

  size_of_bytes : d.blkgetsize64 ≡ some (suc blocks * 512) → size_of d ≡ some (suc blocks * 512)
  unfolding size_of
  size_of_bytes n = rw n

  size_of-IsCounted : (n : ℕ) × (size_of d ≡ some n) × ((n ≡ suc blocks * 512) ↔ IsCounted d sector)
  size_of-IsCounted = elim h.bytes_given [
    | inr b ↦ (suc blocks * 512, size_of_bytes b, (λ e. inl (λ n. cc (n, b)), λ k. refl))
    | inl n ↦ (
      suc blocks * suc sector,
      size_of_product n,
      (
        λ e. inr (mul_left_cancel blocks (suc sector) 512 e),
        λ k. elim k [ inl some_bytes ↦ absurd (some_bytes n) | inr e ↦ ap (λ t. suc blocks * t) e ],
      ),
    )
  ]

  -- The size is filled in, or it is still the one of a structure without it.
  size_filled_or_not :
      (n : ℕ)
      → size_of d ≡ some n
      → (IsIdentified d × (d.blkgetsize_probe ≡ true) × ((get_info_from_disk d).0.size ≡ n))
        ⊎ (((get_info_from_disk d).0.size ≡ 0) × ¬ (IsIdentified d × (d.blkgetsize_probe ≡ true)))
  unfolding get_info_from_disk
  size_filled_or_not n e = ground (arith, e)

  -- If BLKGETSIZE gives the positive number of 512-byte blocks of a disk, BLKSSZGET the bytes of a
  -- sector, BLKGETSIZE64 fails or gives the bytes of the disk, and the blocks times the bytes of a
  -- sector are below 2 ^ 64, then the size in what getInfoFromDisk returns is that of the disk
  -- exactly if the disk was identified, the first size call succeeded, and BLKGETSIZE64 did not
  -- fail or the sectors have 512 bytes.
  pub get_info_from_disk-size :
      ((get_info_from_disk d).0.size ≡ suc blocks * 512)
      ↔ (IsIdentified d × (d.blkgetsize_probe ≡ true) × IsCounted d sector)
  get_info_from_disk-size =
      let (n, e, k) = size_of-IsCounted in
      elim (size_filled_or_not n e) [
        | inl (i, p, f) ↦ (λ z. (i, p, k.0 (cc (f, z))), λ (i, p, c). f ∙ k.1 c)
        | inr (z, none_filled) ↦
            (λ f. absurd (omega (arith, z, f)), λ (i, p, c). absurd (none_filled (i, p)))
      ]

abbrev pub lacks_space : Bytes → Bool
lacks_space [] = true
lacks_space (c ∷ s) = not (c == b' ') && lacks_space s

-- unsignedCharToString leaves no space, returns a text without spaces as it is, and treats the
-- parts of a text one by one.
pub unsigned_char_to_string-lacks_space :
    (s t : Bytes)
    → (lacks_space (unsigned_char_to_string s) ≡ true)
      × (lacks_space s ≡ true → unsigned_char_to_string s ≡ s)
      × (unsigned_char_to_string (s ++ t) ≡ unsigned_char_to_string s ++ unsigned_char_to_string t)
unfolding unsigned_char_to_string
unsigned_char_to_string-lacks_space [] t = (refl, λ h. refl, refl)
unsigned_char_to_string-lacks_space (c ∷ s) t =
    ground (arith, unsigned_char_to_string-lacks_space s t)

-- From a buffer of at least 72 bytes the serial number, the product and the firmware of an NVMe
-- controller are its bytes 4 to 71, in this order and next to each other, with the widths 20, 40
-- and 8.
pub nvme_info-layout :
    (buffer : Bytes)
    → 72 ≤ length buffer
    → let i = nvme_info buffer in
      (take 4 buffer ++ (i.serial_number ++ (i.product ++ (i.firmware ++ drop 72 buffer))) ≡ buffer)
      × (length i.serial_number ≡ 20)
      × (length i.product ≡ 40)
      × (length i.firmware ≡ 8)
nvme_info-layout buffer h = (
  rw
      (
        slice-drop 64 8 72 buffer refl,
        slice-drop 24 40 64 buffer refl,
        slice-drop 4 20 24 buffer refl,
      )
      (take-append-drop 4 buffer),
  length-take 20 (drop 4 buffer) (omega (arith, length-drop 4 buffer)),
  length-take 40 (drop 24 buffer) (omega (arith, length-drop 24 buffer)),
  length-take 8 (drop 64 buffer) (omega (arith, length-drop 64 buffer)),
)
