-- ===== src/Uefi/Value.antt =====
-- What efi_main of efi_library.cpp returns, prints and frees.
use storing_devices_logs_tfm.Base.{
  ℕ, ◌==◌, ◌≡◌, ◌⊎◌, refl, arith, true, false, List, [], ◌∷◌, ◌++◌, Option, none, some, Bytes, text,
  done, fault, bad_index, ◌+◌, ◌*◌, ==_iff, Bool-cases, Option-cases, inl, inr, Finishes,
  if◌then◌else◌,
}
use storing_devices_logs_tfm.Handles.{is_live, without, live_after, IsBalanced}
use storing_devices_logs_tfm.Uefi.{
  EfiCodes, Firmware, size_answer, value_answer, vendor_guid, EfiRun, wide_text, print_value,
  read_value, efi_main, print_variable, pool_uses, variable_run, freed, new_line,
}

-- The characters before the one that is zero, and what stands behind it.
pub record IsWide (s : Bytes) : Type 0 where
  pub value : List ℕ
  pub read : wide_text s ≡ done value

-- The variable is there: the two calls and the allocation succeed.
pub record HasVariable (codes : EfiCodes) (f : Firmware) (value : List ℕ) : Type 0 where
  pub buffer : ℕ
  pub bytes : Bytes
  pub too_small : (size_answer f f.global_guid).0 ≡ codes.efi_buffer_too_small
  pub allocated : f.allocate (size_answer f f.global_guid).1 ≡ some buffer
  pub answered :
      value_answer f f.global_guid (size_answer f f.global_guid).1 (some buffer)
      ≡ (codes.efi_success, bytes)
  pub read : wide_text bytes ≡ done value

pool_uses-IsBalanced : (codes : EfiCodes) (status v : ℕ) → IsBalanced (pool_uses codes status v)
unfolding live_after is_live without
pool_uses-IsBalanced codes status v = ground arith

freed-IsBalanced : (o : Option ℕ) → IsBalanced (freed o)
unfolding live_after is_live without
freed-IsBalanced none = refl
freed-IsBalanced (some v) = ground arith

efi_main_value :
    (codes : EfiCodes) (f : Firmware) (value : List ℕ)
    → (h : HasVariable codes f value)
    → efi_main codes f
      ≡ done (record {
        returned = codes.efi_success;
        characters_printed = text "The value of my_var_name is: " ++ (value ++ new_line);
        pool = pool_uses codes codes.efi_success h.buffer;
      })
unfolding efi_main read_value print_value
efi_main_value codes f value h = ground (arith, h.too_small, h.allocated, h.answered, h.read)

wide_text-cases : (s : Bytes) → Finishes (wide_text s) ⊎ (wide_text s ≡ fault bad_index)
unfolding wide_text
wide_text-cases [] = inr refl
wide_text-cases (x ∷ []) = inr refl
wide_text-cases (x ∷ y ∷ s) = elim (Bool-cases (x + 256 * y == 0)) [
  | inl h ↦ inl ([], rw h)
  | inr h ↦ elim (wide_text-cases s) [
    | inl (t, e) ↦ inl ((x + 256 * y) ∷ t, rw (h, e))
    | inr e ↦ inr (rw (h, e))
  ]
]

-- A run that gives the pool back what it took.
abbrev pub EndsClean : EfiCodes → Firmware → Type 0
EndsClean codes f =
    (r : EfiRun) × (efi_main codes f ≡ done r)
    × IsBalanced r.pool
    × ((r.returned ≡ codes.efi_success) ⊎ (r.returned ≡ codes.efi_out_of_resources))

-- The bytes of the variable have no character that is zero.
pub record IsUnended (codes : EfiCodes) (f : Firmware) : Type 0 where
  pub buffer : ℕ
  pub bytes : Bytes
  pub too_small : (size_answer f f.global_guid).0 ≡ codes.efi_buffer_too_small
  pub allocated : f.allocate (size_answer f f.global_guid).1 ≡ some buffer
  pub answered :
      value_answer f f.global_guid (size_answer f f.global_guid).1 (some buffer)
      ≡ (codes.efi_success, bytes)
  pub unended : wide_text bytes ≡ fault bad_index

module _ (codes : EfiCodes) (f : Firmware) where
  abbrev printed_otherwise : List ℕ
  printed_otherwise =
      if (size_answer f f.global_guid).0 == codes.efi_not_found
      then text "The variable my_var_name was not found" ++ new_line
      else text "Failed to get variable size (status="
        ++ (codes.decimal_status (size_answer f f.global_guid).0 ++ (text ")" ++ new_line))

  other_ends :
      ((size_answer f f.global_guid).0 == codes.efi_buffer_too_small) ≡ false → EndsClean codes f
  unfolding efi_main live_after
  other_ends h = (
    record { returned = codes.efi_success; characters_printed = printed_otherwise; pool = [] },
    ground (arith, h),
    refl,
    inl refl,
  )

  module _ (h : ((size_answer f f.global_guid).0 == codes.efi_buffer_too_small) ≡ true) where
    null_ends : f.allocate (size_answer f f.global_guid).1 ≡ none → EndsClean codes f
    unfolding efi_main read_value live_after
    null_ends n = (
      record {
        returned = codes.efi_out_of_resources;
        characters_printed = text "Failed to allocate memory for variable value" ++ new_line;
        pool = [];
      },
      ground (arith, h, n),
      refl,
      inr refl,
    )

    module _ (v : ℕ) (n : f.allocate (size_answer f f.global_guid).1 ≡ some v) where
      abbrev status : ℕ
      status = (value_answer f f.global_guid (size_answer f f.global_guid).1 (some v)).0

      abbrev bytes : Bytes
      bytes = (value_answer f f.global_guid (size_answer f f.global_guid).1 (some v)).1

      printed_ends :
          (printed : List ℕ) → print_value codes status bytes ≡ done printed → EndsClean codes f
      unfolding efi_main read_value
      printed_ends printed e = (
        record {
          returned = codes.efi_success;
          characters_printed = printed;
          pool = pool_uses codes status v;
        },
        ground (arith, h, n, e),
        pool_uses-IsBalanced codes status v,
        inl refl,
      )

      value_ends : EndsClean codes f ⊎ (IsUnended codes f × (efi_main codes f ≡ fault bad_index))
      unfolding print_value efi_main read_value
      value_ends = elim (Bool-cases (status == codes.efi_success)) [
        | inr e ↦
            let failed =
              text "Failed to read variable value (status="
              ++ (codes.decimal_status status ++ (text ")" ++ new_line)) in
            inl (printed_ends failed (rw e))
        | inl e ↦ elim (wide_text-cases bytes) [
          | inl (t, w) ↦
              let shown = text "The value of my_var_name is: " ++ (t ++ new_line) in
              inl (printed_ends shown (rw (e, w)))
          | inr w ↦ inr (
            record {
              buffer = v;
              bytes = bytes;
              too_small = (==_iff _ _).0 h;
              allocated = n;
              answered = ground (arith, (==_iff status codes.efi_success).0 e);
              unended = w;
            },
            ground (arith, h, n, e, w),
          )
        ]
      ]

  -- efi_main returns success or the status for exhausted resources, and the pool memory that it
  -- took is released once and not used behind that; or the variable's bytes have no character that
  -- is zero, both calls and the allocation succeeded, and the print reads behind the buffer.
  pub efi_main_ends : EndsClean codes f ⊎ (IsUnended codes f × (efi_main codes f ≡ fault bad_index))
  efi_main_ends =
      elim (Bool-cases ((size_answer f f.global_guid).0 == codes.efi_buffer_too_small)) [
        | inr h ↦ inl (other_ends h)
        | inl h ↦ elim (Option-cases (f.allocate (size_answer f f.global_guid).1)) [
          | inl n ↦ inl (null_ends h n)
          | inr (v, n) ↦ value_ends h v n
        ]
      ]

-- The program of example.cpp prints the name of the variable: what the second call puts into the
-- buffer changes nothing.
print_variable_name :
    (f g : Firmware)
    → size_answer f vendor_guid ≡ size_answer g vendor_guid
    → f.allocate ≡ g.allocate
    → ((n : ℕ) (v : Option ℕ)
        → (value_answer f vendor_guid n v).0 ≡ (value_answer g vendor_guid n v).0)
    → print_variable f ≡ print_variable g
unfolding print_variable variable_run
print_variable_name f g a b c =
    let n = (size_answer g vendor_guid).1 in ground (arith, a, b, c n (g.allocate n))
