-- ===== src/Usb.antt =====
-- usb.h, and the data of usb.cpp: the interfaces in use and the devices gathered so far.
pub mod Text
pub mod Checks
pub mod Log
pub mod Values
pub mod Fields
pub mod Names
pub mod Dates
pub mod Safety
pub mod Storage
pub mod Information
pub mod Disconnection
pub mod Inform
use storing_devices_logs_tfm.Base.{Bool, true, false, List, [], ℤ, pos, Bytes}
use storing_devices_logs_tfm.StdMap.{StdMap}

pub record UsbInterface : Type 0 where
  pub is_empty : Bool
  pub is_storage_device : Bool
  pub connection_time : Bytes
  pub disconnection_time : Bytes
  pub id_vendor : ℤ
  pub id_product : ℤ
  pub product_name : Bytes
  pub manufacturer : Bytes
  pub serial_number : Bytes

pub record UsbInfo : Type 0 where
  pub connection_times : List Bytes
  pub disconnection_times : List Bytes
  pub id_vendor : ℤ
  pub id_product : ℤ
  pub product_name : Bytes
  pub manufacturer : Bytes
  pub serial_number : Bytes

-- What initializeUsbInterface leaves: it writes every field.
abbrev pub initialized : UsbInterface
initialized = record {
  is_empty = true;
  is_storage_device = false;
  connection_time = [];
  disconnection_time = [];
  id_vendor = pos 0;
  id_product = pos 0;
  product_name = [];
  manufacturer = [];
  serial_number = [];
}

abbrev pub initialize_usb_interface : UsbInterface → UsbInterface
initialize_usb_interface e = initialized

-- `usbInfo()`.
abbrev pub usb_info : UsbInfo
usb_info = record {
  connection_times = [];
  disconnection_times = [];
  id_vendor = pos 0;
  id_product = pos 0;
  product_name = [];
  manufacturer = [];
  serial_number = [];
}

abbrev pub Interfaces : Type 0
Interfaces = StdMap UsbInterface

abbrev pub Usbs : Type 0
Usbs = StdMap UsbInfo
