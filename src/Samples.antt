-- ===== src/Samples.antt =====
-- Tests, and the theorems at concrete inputs.
mod Log
mod Sessions
mod Disk
mod Report
mod Returns
mod Apart
mod Printed
mod Events
mod Described
mod Programs
mod Zones
mod Whole
