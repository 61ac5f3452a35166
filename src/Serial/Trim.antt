-- ===== src/Serial/Trim.antt =====
-- What the trimmed serial number is, and how it differs from that of hard_disk.cpp.
use storing_devices_logs_tfm.Base.{
  ℕ, zero, suc, ◌+◌, true, false, ◌==◌, ==_iff, ◌≡◌, refl, sym, ap, ◌∙◌, arith, ◌⊎◌, inl, inr, [],
  ◌∷◌, ◌++◌, none, some, Bytes, take, Bool-cases, append-nil, append_assoc, length,
}
use storing_devices_logs_tfm.Usb.Text.{behind}
use storing_devices_logs_tfm.Disk.{unsigned_char_to_string}
use storing_devices_logs_tfm.Disk.Info.{HdDriveid, ata_info}
use storing_devices_logs_tfm.Disk.Laws.{lacks_space, unsigned_char_to_string-lacks_space}
use storing_devices_logs_tfm.Serial.{last_not_of, trim, Drive, get_disk_serial}

abbrev pub spaces : ℕ → Bytes
spaces zero = []
spaces (suc n) = b' ' ∷ spaces n

-- Either the text is spaces only, or a byte that is no space stands in front of its last spaces.
last_not_of-cases :
    (s : Bytes)
    → ((n : ℕ) × (last_not_of b' ' s ≡ none) × (s ≡ spaces n))
      ⊎ ((p : Bytes) × (x n : ℕ) × (last_not_of b' ' s ≡ some (length p))
          × (s ≡ p ++ x ∷ spaces n)
          × ((x == b' ') ≡ false))
unfolding last_not_of
last_not_of-cases [] = inl (0, refl, refl)
last_not_of-cases (c ∷ s) = elim (last_not_of-cases s) [
  | inr (p, x, n, l, e, k) ↦ inr (c ∷ p, x, n, rw l, ap (λ y. c ∷ y) e, k)
  | inl (n, l, e) ↦ elim (Bool-cases (c == b' ')) [
    | inl t ↦ inl (suc n, rw (l, t), cc (e, (==_iff c b' ').0 t))
    | inr t ↦ inr ([], c, n, rw (l, t), ap (λ y. c ∷ y) e, t)
  ]
]

take-behind : (p : Bytes) (x : ℕ) (s : Bytes) → take (length p + 1) (p ++ x ∷ s) ≡ p ++ x ∷ []
take-behind [] x s = refl
take-behind (c ∷ p) x s =
    let step : suc (length p) + 1 ≡ suc (length p + 1) = omega arith in
    ap (λ k. take k (c ∷ (p ++ x ∷ s))) step ∙ ap (λ y. c ∷ y) (take-behind p x s)

-- A serial number is the trimmed one with some number of spaces behind it, and the trimmed one is
-- empty or ends in a byte that is no space.
pub trim-spaces :
    (s : Bytes)
    → ((n : ℕ) × (s ≡ trim s ++ spaces n))
      × ((trim s ≡ []) ⊎ ((p : Bytes) × (x : ℕ) × (trim s ≡ p ++ x ∷ []) × ((x == b' ') ≡ false)))
unfolding trim behind
trim-spaces s = elim (last_not_of-cases s) [
  | inl (n, l, e) ↦ rw l ((n, e), inl refl)
  | inr (p, x, n, l, e, k) ↦
      let t : take (length p + 1) s ≡ p ++ x ∷ [] =
        ap (take (length p + 1)) e ∙ take-behind p x (spaces n) in
      rw (l, t) ((n, e ∙ sym (append_assoc p (x ∷ []) (spaces n))), inr (p, x, refl, k))
]

spaces_dropped : (n : ℕ) → unsigned_char_to_string (spaces n) ≡ []
unfolding unsigned_char_to_string
spaces_dropped zero = refl
spaces_dropped (suc n) = spaces_dropped n

-- The program's text is that of the trimmed one without the spaces inside it.
pub trim-unsigned_char_to_string :
    (s : Bytes)
    → (unsigned_char_to_string (trim s) ≡ unsigned_char_to_string s)
      × (lacks_space (trim s) ≡ true → unsigned_char_to_string s ≡ trim s)
trim-unsigned_char_to_string s =
    let (n, e) = (trim-spaces s).0 in
    let parts = (unsigned_char_to_string-lacks_space (trim s) (spaces n)).2 in
    let same : unsigned_char_to_string s ≡ unsigned_char_to_string (trim s) =
      ap unsigned_char_to_string e
      ∙ parts
      ∙ ap (λ y. unsigned_char_to_string (trim s) ++ y) (spaces_dropped n)
      ∙ append-nil (unsigned_char_to_string (trim s)) in
    (sym same, λ h. same ∙ (unsigned_char_to_string-lacks_space (trim s) []).1 h)

-- For a disk that opens and gives its identity, the serial number of hard_disk.cpp is that of the
-- earlier program without the spaces inside it, so the two are equal if there are none.
pub get_disk_serial-ata_info :
    (d : Drive) (i : HdDriveid)
    → d.opens ≡ true
    → d.hdio_get_identity ≡ some i.serial_no
    → ((ata_info i).serial_number ≡ unsigned_char_to_string (get_disk_serial d))
      × (lacks_space (get_disk_serial d) ≡ true → (ata_info i).serial_number ≡ get_disk_serial d)
unfolding get_disk_serial
get_disk_serial-ata_info d i o h =
    let (same, plain) = trim-unsigned_char_to_string i.serial_no in rw (o, h) (sym same, plain)
