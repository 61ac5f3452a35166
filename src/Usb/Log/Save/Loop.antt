-- ===== src/Usb/Log/Save/Loop.antt =====
-- The loop of saveInterfacesInfoInUSBsMap against its reference, for both kinds of allocator.
use storing_devices_logs_tfm.Base.{
  true, false, ◌≡◌, refl, ap, ◌∙◌, arith, [], ◌∷◌, ◌++◌, Bytes, done, fault, invalid_iterator,
  ◌>>=◌, inl, inr, ◌⊎◌, Bool-cases, append_assoc, subst,
}
use storing_devices_logs_tfm.StdMap.{replace, IsSorted}
use storing_devices_logs_tfm.StdMap.Replace.{replace-set, set-IsSorted}
use storing_devices_logs_tfm.Usb.{UsbInterface, Interfaces, Usbs, initialized}
use storing_devices_logs_tfm.Usb.Log.Save.{
  Allocator, reusing, other, advance, save_from, save_interfaces_info_in_usbs_map,
}
use storing_devices_logs_tfm.Usb.Log.Save.Reference.{
  record_interface, record_all, empty_all, save_interface-record_interface,
  record_interface-IsSorted, not_before, set-append, find-append,
}

replace_here :
    (k : Bytes) (v w : UsbInterface) (pre rest : Interfaces)
    → IsSorted (pre ++ (k, w) ∷ rest)
    → replace k v (pre ++ (k, w) ∷ rest) ≡ done (pre ++ (k, v) ∷ rest)
replace_here k v w pre rest s =
    let n = not_before k w pre rest s in
    replace-set k v w _ s (find-append k w pre rest n) ∙ ap done (set-append k v w pre rest n)

here-IsSorted :
    (k : Bytes) (v w : UsbInterface) (pre rest : Interfaces)
    → IsSorted (pre ++ (k, w) ∷ rest)
    → IsSorted (pre ++ (k, v) ∷ rest)
here-IsSorted k v w pre rest s =
    subst IsSorted (set-append k v w pre rest (not_before k w pre rest s)) (set-IsSorted k v _ s)

-- One round on an interface in use.
round_used :
    (a : Allocator) (k : Bytes) (e : UsbInterface) (pre rest : Interfaces) (usbs : Usbs)
    → e.is_empty ≡ false
    → IsSorted (pre ++ (k, e) ∷ rest)
    → IsSorted usbs
    → save_from a ((k, e) ∷ rest) (pre ++ (k, e) ∷ rest) usbs ≡ (
        advance a >>= λ next.
        save_from a rest (pre ++ (k, initialized) ∷ rest) (record_interface e usbs))
unfolding save_from
round_used a k e pre rest usbs used s t =
    ground
      (arith, save_interface-record_interface e usbs t, replace_here k initialized e pre rest s)

round_empty :
    (a : Allocator) (k : Bytes) (e : UsbInterface) (m rest : Interfaces) (usbs : Usbs)
    → e.is_empty ≡ true
    → save_from a ((k, e) ∷ rest) m usbs ≡ save_from a rest m usbs
unfolding save_from
round_empty a k e m rest usbs t = ground arith

save_from-nil :
    (a : Allocator) (m : Interfaces) (usbs : Usbs) → save_from a [] m usbs ≡ done (m, usbs)
unfolding save_from
save_from-nil a m usbs = refl

behind :
    (pre rest : Interfaces) (k : Bytes) (x : UsbInterface) (usbs u : Usbs)
    → save_from reusing rest ((pre ++ (k, x) ∷ []) ++ rest) usbs
      ≡ done ((pre ++ (k, x) ∷ []) ++ empty_all rest, u)
    → save_from reusing rest (pre ++ (k, x) ∷ rest) usbs ≡ done (pre ++ (k, x) ∷ empty_all rest, u)
behind pre rest k x usbs u h =
    rw (append_assoc pre ((k, x) ∷ []) rest, append_assoc pre ((k, x) ∷ []) (empty_all rest)) at h

-- The loop from `rest` on, behind the elements `pre` that it has passed.
save_from-reusing :
    (pre rest : Interfaces) (usbs : Usbs)
    → IsSorted (pre ++ rest)
    → IsSorted usbs
    → save_from reusing rest (pre ++ rest) usbs ≡ done (pre ++ empty_all rest, record_all rest usbs)
unfolding advance
save_from-reusing pre [] usbs s t = save_from-nil reusing (pre ++ []) usbs
save_from-reusing pre ((k, e) ∷ rest) usbs s t = elim (Bool-cases e.is_empty) [
  | inl h ↦
      let next =
        behind pre rest k e usbs (record_all rest usbs)
          (save_from-reusing (pre ++ (k, e) ∷ []) rest usbs (rw append_assoc s) t) in
      round_empty reusing k e (pre ++ (k, e) ∷ rest) rest usbs h ∙ next ∙ ground arith
  | inr h ↦
      let next =
        behind pre rest k initialized (record_interface e usbs)
          (record_all rest (record_interface e usbs))
          (save_from-reusing (pre ++ (k, initialized) ∷ []) rest (record_interface e usbs)
            (rw append_assoc (here-IsSorted k initialized e pre rest s))
            (record_interface-IsSorted e usbs t)) in
      round_used reusing k e pre rest usbs h s t ∙ next ∙ ground arith
]

-- No interface holds a device.
abbrev pub IsIdle : Interfaces → Type 0
IsIdle [] = Unit
IsIdle ((k, e) ∷ m) = (e.is_empty ≡ true) × IsIdle m

save_from-other :
    (pre rest : Interfaces) (usbs : Usbs)
    → IsSorted (pre ++ rest)
    → IsSorted usbs
    → (IsIdle rest × (save_from other rest (pre ++ rest) usbs ≡ done (pre ++ rest, usbs)))
      ⊎ ((¬ IsIdle rest) × (save_from other rest (pre ++ rest) usbs ≡ fault invalid_iterator))
unfolding advance
save_from-other pre [] usbs s t = inl (tt, save_from-nil other (pre ++ []) usbs)
save_from-other pre ((k, e) ∷ rest) usbs s t = elim (Bool-cases e.is_empty) [
  | inr h ↦ inr (λ idle. ground (arith, idle.0, h), round_used other k e pre rest usbs h s t)
  | inl h ↦ elim (save_from-other (pre ++ (k, e) ∷ []) rest usbs (rw append_assoc s) t) [
    | inl (idle, r) ↦ inl (
      (h, idle),
      round_empty other k e (pre ++ (k, e) ∷ rest) rest usbs h
          ∙ (rw (append_assoc pre ((k, e) ∷ []) rest) at r),
    )
    | inr (busy, r) ↦ inr (
      λ idle. busy idle.1,
      round_empty other k e (pre ++ (k, e) ∷ rest) rest usbs h
          ∙ (rw (append_assoc pre ((k, e) ∷ []) rest) at r),
    )
  ]
]

module _ (m : Interfaces) (usbs : Usbs) (s : IsSorted m) (t : IsSorted usbs) where
  -- On sorted maps, with an allocator that hands the freed node back, saveInterfacesInfoInUSBsMap
  -- does what the reference does: each interface in use is entered in the map of devices in the
  -- order of the ports, a device that is not known only if it is for storage, and each is emptied.
  pub save-reusing :
      save_interfaces_info_in_usbs_map reusing m usbs ≡ done (empty_all m, record_all m usbs)
  unfolding save_interfaces_info_in_usbs_map
  save-reusing = save_from-reusing [] m usbs s t

  -- On sorted maps, with an allocator that does not hand the freed node back,
  -- saveInterfacesInfoInUSBsMap leaves the maps as they are if no interface is in use, and
  -- otherwise advances an iterator to an erased element.
  pub save-other :
      (IsIdle m × (save_interfaces_info_in_usbs_map other m usbs ≡ done (m, usbs)))
      ⊎ ((¬ IsIdle m) × (save_interfaces_info_in_usbs_map other m usbs ≡ fault invalid_iterator))
  unfolding save_interfaces_info_in_usbs_map
  save-other = save_from-other [] m usbs s t
