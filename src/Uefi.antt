-- ===== src/Uefi.antt =====
-- UEFI development kit/efi_library.cpp and example.cpp: the value of an EFI variable, by one call
-- for its size and one for its bytes. What the firmware answers is an argument.
pub mod Value
use storing_devices_logs_tfm.Base.{
  ℕ, ◌+◌, ◌*◌, ◌==◌, if◌then◌else◌, List, [], ◌∷◌, ◌++◌, Option, none, some, Bytes, text, Outcome,
  done, fault, bad_index, ◌>>=◌,
}
use storing_devices_logs_tfm.Handles.{Use, acquire, access, release}

-- The codes of efi.h that efi_library.cpp names, and what `Print` writes for `%d` of a status.
pub record EfiCodes : Type 0 where
  pub efi_success : ℕ
  pub efi_buffer_too_small : ℕ
  pub efi_not_found : ℕ
  pub efi_out_of_resources : ℕ
  pub decimal_status : ℕ → Bytes

pub record EfiGuid : Type 0 where
  pub time_low : ℕ
  pub time_mid : ℕ
  pub time_high : ℕ
  pub node : List ℕ

-- `GetVariable` is given the name, the owner, the size and the buffer, `none` for a null one. It
-- gives the status, the size and the bytes in the buffer.
pub record RuntimeServices : Type 0 where
  pub get_variable : List ℕ → EfiGuid → ℕ → Option ℕ → ℕ × ℕ × Bytes

pub record EfiSystemTable : Type 0 where
  pub runtime_services : RuntimeServices

-- What is outside of the two programs: the table, the pool or the heap, and `gEfiGlobalVariableGuid`.
pub record Firmware : Type 0 where
  pub system_table : EfiSystemTable
  pub allocate : ℕ → Option ℕ
  pub global_guid : EfiGuid

abbrev pub var_name : List ℕ
var_name = text "my_var_name"

-- The call without a buffer, for the size.
abbrev pub size_answer : Firmware → EfiGuid → ℕ × ℕ
size_answer f guid =
    let (status, var_size, bytes) =
      f.system_table.runtime_services.get_variable var_name guid 0 none in
    (status, var_size)

-- The call with a buffer, for the bytes.
abbrev pub value_answer : Firmware → EfiGuid → ℕ → Option ℕ → ℕ × Bytes
value_answer f guid var_size buffer =
    let (status, size, bytes) =
      f.system_table.runtime_services.get_variable var_name guid var_size buffer in
    (status, bytes)

-- The status that is returned, the characters printed and the uses of the pool.
pub record EfiRun : Type 0 where
  pub returned : ℕ
  pub characters_printed : List ℕ
  pub pool : List Use

-- `%s` takes the bytes as characters of two bytes each, up to one that is zero.
unfoldable pub wide_text : Bytes → Outcome (List ℕ)
wide_text [] = fault bad_index
wide_text (x ∷ []) = fault bad_index
wide_text (x ∷ y ∷ s) =
    let rest = wide_text s >>= λ t. done ((x + 256 * y) ∷ t) in
    if x + 256 * y == 0 then done [] else rest

abbrev pub new_line : List ℕ
new_line = b'\n' ∷ []

-- The second call and what is printed of it.
unfoldable pub print_value : EfiCodes → ℕ → Bytes → Outcome (List ℕ)
unfolding wide_text
print_value codes status var_value =
    if status == codes.efi_success
    then (wide_text var_value >>= λ t.
        done (text "The value of my_var_name is: " ++ (t ++ new_line)))
    else done (
        text "Failed to read variable value (status="
        ++ (codes.decimal_status status ++ (text ")" ++ new_line)))

-- The buffer is written by the call, read by `Print` if there is a value, and freed.
abbrev pub pool_uses : EfiCodes → ℕ → ℕ → List Use
pool_uses codes status var_value =
    acquire var_value
    ∷ access var_value
    ∷ (if status == codes.efi_success
        then access var_value ∷ release var_value ∷ []
        else release var_value ∷ [])

unfoldable pub read_value : EfiCodes → Firmware → ℕ → Outcome EfiRun
unfolding print_value
read_value codes f var_size = elim (f.allocate var_size) [
  | none ↦ done (record {
    returned = codes.efi_out_of_resources;
    characters_printed = text "Failed to allocate memory for variable value" ++ new_line;
    pool = [];
  })
  | some var_value ↦
      let (status, bytes) = value_answer f f.global_guid var_size (some var_value) in
      print_value codes status bytes >>= λ printed. done (record {
        returned = codes.efi_success;
        characters_printed = printed;
        pool = pool_uses codes status var_value;
      })
]

abbrev without_pool : ℕ → List ℕ → Outcome EfiRun
without_pool status printed =
    done (record { returned = status; characters_printed = printed; pool = [] })

unfoldable pub efi_main : EfiCodes → Firmware → Outcome EfiRun
unfolding read_value
efi_main codes f =
    let (status, var_size) = size_answer f f.global_guid in
    if status == codes.efi_buffer_too_small
    then read_value codes f var_size
    else if status == codes.efi_not_found
    then without_pool codes.efi_success (text "The variable my_var_name was not found" ++ new_line)
    else without_pool codes.efi_success (
        text "Failed to get variable size (status="
        ++ (codes.decimal_status status ++ (text ")" ++ new_line)))

-- The enumerators that example.cpp declares itself.
abbrev pub success : ℕ
success = 0

abbrev pub buffer_too_small : ℕ
buffer_too_small = 5

abbrev pub vendor_guid : EfiGuid
vendor_guid = record {
  time_low = 0x8be4df61;
  time_mid = 0x93ca;
  time_high = 0x11d2;
  node = 0xaa ∷ 0x0d ∷ 0 ∷ 0xe0 ∷ 0x98 ∷ 0x03 ∷ 0x2b ∷ 0x8c ∷ [];
}

-- `free` of a null pointer does nothing.
abbrev pub freed : Option ℕ → List Use
freed none = []
freed (some var_data) = acquire var_data ∷ access var_data ∷ release var_data ∷ []

abbrev pub name_printed : ℕ → List ℕ
name_printed status =
    if status == success then text "This variable is: " ++ (var_name ++ new_line) else []

-- `main` of example.cpp; `allocate` is `malloc`, whose result is not checked.
variable_run : Option ℕ → ℕ → EfiRun
variable_run var_data status = record {
  returned = 0;
  characters_printed = name_printed status;
  pool = freed var_data;
}

unfoldable pub print_variable : Firmware → EfiRun
unfolding variable_run
print_variable f =
    let (status, var_size) = size_answer f vendor_guid in
    let var_data = f.allocate var_size in
    if status == buffer_too_small
    then variable_run var_data (value_answer f vendor_guid var_size var_data).0
    else record { returned = 0; characters_printed = []; pool = [] }
