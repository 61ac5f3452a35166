-- ===== src/Identity/Reads.antt =====
-- When the program of from disk 2 reads what nothing has written.
use storing_devices_logs_tfm.Base.{
  true, false, ◌≡◌, refl, arith, some, none, Bytes, fault, uninitialised, negsuc, is_zero,
  Option-cases, inl, inr, Finishes, Finishes-bind, [], ◌≤◌, ◌<◌, length, take, done,
}
use storing_devices_logs_tfm.Regex.{c_str}
use storing_devices_logs_tfm.Scsi.{has_end}
use storing_devices_logs_tfm.Identity.{
  Kernel, serial_read, array_text, disk_array, print_serials, compare_serials, NvmeDevice, mib,
  identify_nvme, nvme_lines,
}

-- The first call fills the array, and both arrays end inside themselves.
pub record HasEnds (m : Kernel) : Type 0 where
  pub filled : (written : Bytes) → m.disk_serial ≡ some written → 21 ≤ length written
  pub disk : (written : Bytes) → m.disk_serial ≡ some written → has_end (take 21 written) ≡ true
  pub identity : (chars : Bytes) → m.get_identity true ≡ some chars → has_end chars ≡ true

array_text-Finishes : (chars : Bytes) → has_end chars ≡ true → Finishes (array_text chars)
unfolding array_text
array_text-Finishes chars h = (c_str chars, rw h)

disk_array-done :
    (written : Bytes) → 21 ≤ length written → disk_array (some written) ≡ done (take 21 written)
unfolding disk_array
disk_array-done written h = ground arith

print_serials-Finishes :
    (m : Kernel) (written identity : Bytes)
    → serial_read m ≡ some written
    → 21 ≤ length written
    → has_end (take 21 written) ≡ true
    → has_end identity ≡ true
    → Finishes (print_serials m identity)
unfolding print_serials
print_serials-Finishes m written identity r l c i =
    rw (r, disk_array-done written l)
      (Finishes-bind (array_text (take 21 written)) _ (array_text-Finishes (take 21 written) c)
        λ disk.
          Finishes-bind (array_text identity) _ (array_text-Finishes identity i) (λ n. (_, refl)))

serial_read-opens :
    (m : Kernel) (written : Bytes) → serial_read m ≡ some written → m.disk_serial ≡ some written
serial_read-opens m written r = ground (arith, r)

-- If no identity is given on a descriptor that is not open, the first call fills the array, and both
-- arrays end inside themselves where they are filled, the program comes to its end.
compare_serials-Finishes :
    (m : Kernel) → m.get_identity false ≡ none → HasEnds m → Finishes (compare_serials m)
unfolding compare_serials
compare_serials-Finishes m closed ends = elim (Option-cases (serial_read m)) [
  | inl r ↦ ((1, []), ground (arith, r, closed))
  | inr (written, r) ↦ elim (Option-cases (m.get_identity true)) [
    | inl g ↦ ((1, []), ground (arith, r, g))
    | inr (identity, g) ↦
        let w = serial_read-opens m written r in
        let (printed, e) =
          print_serials-Finishes m written identity r (ends.filled written w) (ends.disk written w)
            (ends.identity identity g) in
        ((0, printed), ground (arith, r, g, e))
  ]
]

-- If the first call writes less than the array and the disk gives its identity, the program reads
-- what nothing has written.
compare_serials_uninitialised :
    (m : Kernel) (written identity : Bytes)
    → serial_read m ≡ some written
    → length written < 21
    → m.get_identity true ≡ some identity
    → compare_serials m ≡ fault uninitialised
unfolding compare_serials print_serials disk_array
compare_serials_uninitialised m written identity r l g = ground (arith, r, g)

-- A device that does not open is asked for its identity with the descriptor -1: only the answer of
-- that call ends the program.
identify_nvme_unopened :
    (d : NvmeDevice)
    → d.opened ≡ negsuc 0
    → is_zero (d.ioctl (negsuc 0) mib).0 ≡ true
    → identify_nvme d ≡ (0, nvme_lines (d.ioctl (negsuc 0) mib).1)
unfolding identify_nvme
identify_nvme_unopened d e z = rw (e, z)
