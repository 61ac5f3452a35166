-- ===== src/Mounts/Lookup.antt =====
-- What the lookup of a disk in /proc/mounts finds.
use storing_devices_logs_tfm.Base.{
  ℕ, true, false, ◌≡◌, refl, ap, ◌∙◌, arith, List, [], ◌∷◌, ◌++◌, some, none, All, Bytes, text,
  equal_refl, done, length, take,
}
use storing_devices_logs_tfm.Usb.Values.{lacks}
use storing_devices_logs_tfm.Mounts.{
  split, last_index_of, up_to, parent, is_device, sysfs_path, find_mount,
}
use storing_devices_logs_tfm.Mounts.Split.{split-field}

last_index_of-lacks : (c : ℕ) (s : Bytes) → lacks c s ≡ true → last_index_of c s ≡ none
unfolding last_index_of
last_index_of-lacks c [] h = refl
last_index_of-lacks c (x ∷ s) h = ground (arith, last_index_of-lacks c s)

last_index_of-append :
    (c : ℕ) (p n : Bytes) → lacks c n ≡ true → last_index_of c (p ++ c ∷ n) ≡ some (length p)
unfolding last_index_of
last_index_of-append c [] n h = ground (arith, last_index_of-lacks c n)
last_index_of-append c (x ∷ p) n h = rw (last_index_of-append c p n h)

take-length : (p s : Bytes) → take (length p) (p ++ s) ≡ p
take-length [] s = refl
take-length (x ∷ p) s = ap (λ y. x ∷ y) (take-length p s)

parent-append : (p n : Bytes) → lacks b'/' n ≡ true → parent (p ++ b'/' ∷ n) ≡ p
unfolding up_to
parent-append p n h = rw (last_index_of-append b'/' p n h) (take-length p (b'/' ∷ n))

-- A line of the table: the device, the mount point and the rest.
abbrev pub mounted : Bytes → Bytes → Bytes → Bytes
mounted name mount_point rest = (text "/dev/" ++ name) ++ (b' ' ∷ (mount_point ++ (b' ' ∷ rest)))

abbrev pub IsOther : Bytes → Bytes → Type 0
IsOther name line = is_device name (split line b' ') ≡ false

mounted-fields :
    (name mount_point rest : Bytes)
    → lacks b' ' (text "/dev/" ++ name) ≡ true
    → lacks b' ' mount_point ≡ true
    → split (mounted name mount_point rest) b' '
      ≡ (text "/dev/" ++ name) ∷ mount_point ∷ split rest b' '
mounted-fields name mount_point rest h k =
    split-field (text "/dev/" ++ name) (mount_point ++ b' ' ∷ rest) b' ' h
    ∙ ap (λ x. (text "/dev/" ++ name) ∷ x) (split-field mount_point rest b' ' k)

device-lacks : (name : Bytes) → lacks b' ' name ≡ true → lacks b' ' (text "/dev/" ++ name) ≡ true
unfolding text
device-lacks name h = h

is_device_self :
    (name : Bytes) (fields : List Bytes) → is_device name ((text "/dev/" ++ name) ∷ fields) ≡ true
unfolding is_device
is_device_self name fields = equal_refl (text "/dev/" ++ name)

-- If the name of the disk and the mount point have no space, the mount point is a path, a slash
-- and a name without slashes, and no line before is about the disk, the lookup in the table of
-- mounts returns that path from the line of the disk.
pub find_mount-parent :
    (name path last rest : Bytes) (before after : List Bytes)
    → lacks b' ' name ≡ true
    → lacks b' ' (path ++ b'/' ∷ last) ≡ true
    → lacks b'/' last ≡ true
    → All (IsOther name) before
    → find_mount name (before ++ mounted name (path ++ b'/' ∷ last) rest ∷ after) ≡ done (some path)
unfolding find_mount sysfs_path
find_mount-parent name path last rest [] after h k l a =
    rw
      (
        mounted-fields name (path ++ b'/' ∷ last) rest (device-lacks name h) k,
        is_device_self name ((path ++ b'/' ∷ last) ∷ split rest b' '),
      )
      (rw (parent-append path last l))
find_mount-parent name path last rest (line ∷ before) after h k l a =
    rw (a.0) (find_mount-parent name path last rest before after h k l (a.1))
