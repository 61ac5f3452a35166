-- ===== src/Output.antt =====
-- The file-scope variables of output.cpp, which every row of the report goes through, and the
-- functions that reset them.
pub mod Texts
pub mod Times
pub mod Size
pub mod Html
pub mod Terminal
pub mod Report
pub mod Rows
pub mod Calendar
pub mod Zones
pub mod Finish
use storing_devices_logs_tfm.Base.{Bytes, [], text}

pub record Globals : Type 0 where
  pub usb_connected : Bytes
  pub usb_serial_number : Bytes
  pub usb_product_name : Bytes
  pub usb_manufacturer : Bytes
  pub usb_vendor_id : Bytes
  pub usb_product_id : Bytes
  pub usb_localtime_connection : Bytes
  pub usb_localtime_disconnection : Bytes
  pub usb_utc_connection : Bytes
  pub usb_utc_disconnection : Bytes
  pub usb_est_connection : Bytes
  pub usb_est_disconnection : Bytes
  pub disk_path : Bytes
  pub disk_interface : Bytes
  pub disk_product : Bytes
  pub disk_version : Bytes
  pub disk_firmware_version : Bytes
  pub disk_serial_number : Bytes
  pub disk_size : Bytes

-- The values that their declarations give.
abbrev pub at_start : Globals
at_start = record {
  usb_connected = text "red;\">Not connected";
  usb_serial_number = text "Serial number not found";
  usb_product_name = text "Product name not found";
  usb_manufacturer = text "Manufacturer not found";
  usb_vendor_id = text "Vendor ID not found";
  usb_product_id = text "Product ID not found";
  usb_localtime_connection = [];
  usb_localtime_disconnection = [];
  usb_utc_connection = [];
  usb_utc_disconnection = [];
  usb_est_connection = [];
  usb_est_disconnection = [];
  disk_path = text "Unknown disk";
  disk_interface = text "Interface not found";
  disk_product = text "Product not found";
  disk_version = text "Version not found";
  disk_firmware_version = text "Firmware not found";
  disk_serial_number = text "Serial number not found";
  disk_size = text "Size not found";
}

unfoldable pub initialize_usb_variables : Globals → Globals
initialize_usb_variables g = record g {
  usb_connected = text "red;\">Not connected";
  usb_serial_number = text "Serial number not found";
  usb_product_name = text "Product name not found";
  usb_manufacturer = text "Manufacturer not found";
  usb_vendor_id = text "Vendor ID not found";
  usb_product_id = text "Product ID not found";
}

unfoldable pub initialize_usb_times : Globals → Globals
initialize_usb_times g = record g {
  usb_localtime_connection = [];
  usb_localtime_disconnection = [];
  usb_utc_connection = [];
  usb_utc_disconnection = [];
  usb_est_connection = [];
  usb_est_disconnection = [];
}

unfoldable pub initialize_disk_variables : Globals → Globals
initialize_disk_variables g = record g {
  disk_path = text "Unknown disk";
  disk_interface = text "Interface not found";
  disk_product = text "Product not found";
  disk_version = text "Version not found";
  disk_firmware_version = text "Firmware not found";
  disk_serial_number = text "Serial number not found";
  disk_size = text "Size not found";
}
