-- ===== src/Disk/Names.antt =====
-- getDisksSet: the disks and NVMe namespaces among the entries of /dev.
use storing_devices_logs_tfm.Base.{
  List, [], ◌∷◌, ◌++◌, Option, none, some, if◌then◌else◌, Bytes, text, less,
}
use storing_devices_logs_tfm.Regex.{Class, range, one, Regex, literal, digit, regex_search}

abbrev lower : Class
lower = range b'a' b'z'

-- (sd[a-z])|(nvme[0-9][a-z][0-9])
abbrev pub sd_regex : Regex
sd_regex =
    (literal (text "sd") ++ (one lower ∷ []))
    ∷ (literal (text "nvme") ++ (one digit ∷ one lower ∷ one digit ∷ []))
    ∷ []

-- `std::set<std::string>`: in order, each text once.
unfoldable pub insert : Bytes → List Bytes → List Bytes
insert k [] = k ∷ []
insert k (j ∷ s) = if less k j then k ∷ j ∷ s else j ∷ (if less j k then insert k s else s)

abbrev pub dev : Bytes → Bytes
dev name = text "/dev/" ++ name

unfoldable pub add_found : Option Bytes → List Bytes → List Bytes
add_found none disks = disks
add_found (some found) disks = insert (dev found) disks

-- The loop over the entries, with the set so far.
unfoldable pub add_entries : List Bytes → List Bytes → List Bytes
unfolding add_found
add_entries disks [] = disks
add_entries disks (entry ∷ entries) =
    add_entries (add_found (regex_search sd_regex entry) disks) entries

-- `none`: /dev could not be opened. The message on the error output is not modelled.
unfoldable pub get_disks_set : Option (List Bytes) → List Bytes
unfolding add_entries
get_disks_set none = []
get_disks_set (some entries) = add_entries [] entries
