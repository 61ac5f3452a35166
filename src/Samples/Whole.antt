-- ===== src/Samples/Whole.antt =====
-- The whole program, on a log in which a storage device was plugged in and left.
use storing_devices_logs_tfm.Base.{refl, arith, [], ◌∷◌, some}
use storing_devices_logs_tfm.Disk.Info.{get_disks_info, get_info_from_disk, insert_all}
use storing_devices_logs_tfm.Disk.Names.{get_disks_set, insert}
use storing_devices_logs_tfm.Output.Finish.{ArePrintable}
use storing_devices_logs_tfm.Main.{Reading, Machine, disks_of}
use storing_devices_logs_tfm.Main.Finish.{IsUsual}
use storing_devices_logs_tfm.Main.Shown.{Reports, main-reported}
use storing_devices_logs_tfm.Samples.Log.{new_line, storage_line, gone_line, runs}
use storing_devices_logs_tfm.Samples.Sessions.{port}
use storing_devices_logs_tfm.Samples.Events.{
  there_and_gone, plugged_device, plugged_state, there_and_gone-lines, plugged_state-reached,
  plugged_device-found, there_and_gone-IsReadable,
}
use storing_devices_logs_tfm.Samples.Report.{
  machine, reading, reading-AreSizes, clock-IsCalendar, floats-IsInRange,
}

abbrev short_reading : Reading
short_reading = record reading { log = some there_and_gone }

abbrev short_machine : Machine
short_machine = record machine { for_terminal = short_reading; for_report = short_reading }

short_reading-IsUsual : IsUsual short_reading
short_reading-IsUsual = record { readable = there_and_gone-IsReadable; sizes = reading-AreSizes }

reading-ArePrintable : ArePrintable (disks_of short_reading)
unfolding runs get_disks_info get_disks_set get_info_from_disk insert_all insert
reading-ArePrintable = omega arith

main-reported_example : Reports short_machine plugged_device.connection_time
main-reported_example =
    main-reported short_machine (new_line ∷ storage_line ∷ []) (gone_line ∷ []) plugged_state port
      plugged_device refl refl clock-IsCalendar floats-IsInRange short_reading-IsUsual
      short_reading-IsUsual reading-ArePrintable reading-ArePrintable there_and_gone-lines
      plugged_state-reached plugged_device-found refl refl
