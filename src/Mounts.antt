-- ===== src/Mounts.antt =====
-- prueba/prueba.cpp: the mount point of a disk in /proc/mounts.
pub mod Split
pub mod Lookup
use storing_devices_logs_tfm.Usb.Log.{get_lines}
use storing_devices_logs_tfm.Base.{
  ℕ, zero, suc, Bool, true, false, ◌==◌, if◌then◌else◌, List, [], ◌∷◌, ◌++◌, Option, none, some,
  Bytes, text, equal, Outcome, done, fault, bad_index, ◌>>=◌, or_fault, take, get_elem?,
}

-- The byte in front of the first token.
unfoldable pub begin_token : ℕ → List Bytes → List Bytes
begin_token c [] = (c ∷ []) ∷ []
begin_token c (token ∷ tokens) = (c ∷ token) ∷ tokens

-- `getline` with a delimiter, until the stream is at its end: a delimiter at the end of the text
-- has no empty token behind it.
unfoldable pub split : Bytes → ℕ → List Bytes
unfolding begin_token
split [] delimiter = []
split (c ∷ s) delimiter =
    let tokens = split s delimiter in if c == delimiter then [] ∷ tokens else begin_token c tokens

-- `find_last_of`, with `none` for `npos`.
unfoldable pub last_index_of : ℕ → Bytes → Option ℕ
last_index_of c [] = none
last_index_of c (x ∷ s) = elim (last_index_of c s) [
  | some i ↦ some (suc i)
  | none ↦ if x == c then some 0 else none
]

-- `mount_point.substr(0, mount_point.find_last_of('/'))`: the whole text for `npos`.
unfoldable pub up_to : Option ℕ → Bytes → Bytes
up_to none s = s
up_to (some i) s = take i s

abbrev pub parent : Bytes → Bytes
parent mount_point = up_to (last_index_of b'/' mount_point) mount_point

-- The test of a line. An empty list of fields has no field 0 to compare.
unfoldable pub is_device : Bytes → List Bytes → Bool
is_device name [] = false
is_device name (field ∷ fields) = equal field (text "/dev/" ++ name)

-- The path that the body prints. A line of one field has no field 1.
unfoldable pub sysfs_path : List Bytes → Outcome Bytes
sysfs_path fields = or_fault (get_elem? fields 1) bad_index >>= λ m. done (parent m)

-- The loop over the lines, `none` if it ends without a match.
unfoldable pub find_mount : Bytes → List Bytes → Outcome (Option Bytes)
unfolding split is_device sysfs_path
find_mount device_name [] = done none
find_mount device_name (line ∷ lines) =
    let fields = split line b' ' in
    let rest = find_mount device_name lines in
    if is_device device_name fields then (sysfs_path fields >>= λ p. done (some p)) else rest

-- A run of the program: its status and what it prints. `none`: /proc/mounts could not be opened.
unfoldable pub print_sysfs_path : Option Bytes → Outcome (ℕ × Bytes)
unfolding find_mount
print_sysfs_path none = done (1, [])
print_sysfs_path (some mounts_file) =
    find_mount (text "sda") (get_lines mounts_file) >>= λ found. done (0, report found)
  where
    report : Option Bytes → Bytes
    report none = []
    report (some path) = text "Sysfs path for sda: " ++ (path ++ (b'\n' ∷ []))
