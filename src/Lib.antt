-- ===== src/Lib.antt =====
-- A model of the tool that gathers the identifiers of storage devices, in functions that run, with
-- theorems on what the tool reports.
--
-- The program has four parts. `usb.cpp` reads the system log line by line and keeps two maps, the
-- interfaces in use and the devices gathered so far. `hard_disk.cpp` asks the kernel about the
-- disks that /dev names. `output.cpp` renders both maps, to the terminal and to report.html.
-- `main.cpp` reads everything twice, first for the terminal and then for the report. Earlier
-- programs on single questions stand apart, each in a directory of its own.
--
-- Where things are:
--   Base      the names that all modules share: bytes and their order, lists, integers, and
--             `Outcome`, a value or what makes the C++ program undefined (or throw).
--   Regex     std::regex_search for the expressions of the program: alternatives of patterns whose
--             atoms are one byte of a class or any number of them, with the leftmost match and the
--             choices of the ECMAScript syntax. Regex/Meaning and Regex/Search say what it finds.
--   StdMap    std::map as an association list in key order; `replace` is replaceInUSBsMap and
--             replaceInInterfacesMap. StdMap/Lookup and StdMap/Replace have its laws.
--   Usb       usb.h and the data of usb.cpp. Usb/Text has the expressions, getInterfaceIdFromRegex
--             and stringToInt, Usb/Checks the four checks of a line (check_if_storage_device is
--             checkIfStorageDevice, and so on), Usb/Log the loop of getUSBsInfo (process_line is
--             its body), Usb/Log/Save saveInterfacesInfoInUSBsMap. The other modules of Usb are
--             on single checks; those of Usb/Log are on the lines of the kernel, the invariant, whole
--             runs and the sessions of a device. Usb/Log/Events reads a line as an event, apart from
--             the maps, and has a machine on events whose tables are functions; its children relate
--             the loop to that machine, and follow a device through it to the report.
--   Decimal   std::to_string.
--   Disk      hard_disk.h and hard_disk.cpp: Disk/Names is getDisksSet, Disk/Info getInfoFromDisk
--             and getDisksInfo. What open, opendir and ioctl answer is an argument.
--   Output    output.cpp: the file-scope variables are a record that printHTML is given and gives
--             back. Output/Times has the functions on times, Output/Size humanReadableByteCount,
--             Output/Html printHTML, Output/Terminal the two functions for the terminal, and
--             Output/Report the report that printHTML is compared with.
--   Main      main.cpp: `main` composes the others.
--   Mounts    prueba/prueba.cpp, the mount point of a disk.
--   Serial    get_disk_serial of from disk/example.cpp and from disk/example_2.cpp.
--   Scsi      SCSI/program_3.cpp, the identity of a disk by a SCSI command.
--   Identity  the programs that print serial numbers as they are: sysfs/example.cpp, the `main` of
--             the two programs of from disk, from disk 2/nvme_example.cpp (identify_nvme) and from
--             disk 2/example.cpp (compare_serials), whose expression with a group is in Captures.
--   Daemon    udev daemon/example.cpp, a request to the udev daemon and strtok on its answer.
--   Libudev   libudev/example.cpp. Handles is the record of what a program does with the objects
--             of a library, in order, and of which of them are live.
--   SdDevice  sd-device/example.cpp, with strtoull.
--   Uefi      efi_main of UEFI development kit/efi_library.cpp, and `main` of the example beside it.
--   Samples   tests, and the theorems at concrete inputs.
--
-- Parameters, since their code is not in the repository: the answers of the kernel (Device, Drive,
-- Target, Kernel, NvmeDevice), of a socket (Peer), of libraries (UdevLibrary, SdLibrary) and of a
-- firmware (Firmware, EfiCodes), the clock and the time zone (Clock), the floating-point logarithm
-- and power (Floats), and whether the allocator hands the node that `erase` freed to the next
-- `insert` (Allocator), on which the loop of saveInterfacesInfoInUSBsMap depends. The clock does not
-- move while a report is written.
--
-- Loops are structural recursion on what they iterate over. There is fuel in two places: one round
-- more than the number for its decimal digits, each of which divides it by ten, and one round more
-- than the length of the answer for the loop on strtok, each of which takes a byte at least. An
-- `int` that is read is clamped to its range, and a product of sizes is taken modulo 2 ^ 64.
--
-- Not modelled: the messages on the error output, errors in writing report.html, memory exhaustion
-- of C++ objects, an int counter of devices that overflows, the fields of the types that UEFI
-- development kit/example.cpp copies and does not use, and from disk 2/hd_drive_struct.cpp and from
-- disk 2/nvme_example.c, which are copies of a header and of another project's example.
pub mod Base
pub mod Regex
pub mod StdMap
pub mod Usb
pub mod Decimal
pub mod Disk
pub mod Output
pub mod Main
pub mod Mounts
pub mod Serial
pub mod Scsi
pub mod Identity
pub mod Daemon
pub mod Handles
pub mod Libudev
pub mod SdDevice
pub mod Uefi
pub mod Samples
