-- ===== src/Uhci.antt =====
-- drivers/usb/uhci.c: the constants and the structures of the USB host controller's driver. A
-- structure that the controller reads is in memory; its fields are 32-bit words there.
pub mod Control
pub mod Registers
pub mod Queue
pub mod Requests
pub mod Init
pub mod Interrupt
use usbloader.Common.{ℕ, ◌+◌, ◌*◌, ◌%◌, ◌^◌, Bool, bit_and, bit_or}
use usbloader.Common.Words.{add32}
use usbloader.Memory.{Bytes, load32, store32}

abbrev pub td_lptr_depth : ℕ
td_lptr_depth = 4

abbrev pub td_lptr_term : ℕ
td_lptr_term = 1

abbrev pub td_low_speed : ℕ
td_low_speed = 2 ^ 26

abbrev pub td_ioc : ℕ
td_ioc = 2 ^ 24

abbrev pub td_status_active : ℕ
td_status_active = 2 ^ 23

abbrev pub td_data_toggle : ℕ
td_data_toggle = 2 ^ 19

abbrev pub td_pid_in : ℕ
td_pid_in = 0x69

abbrev pub td_pid_out : ℕ
td_pid_out = 0xe1

abbrev pub td_pid_setup : ℕ
td_pid_setup = 0x2d

abbrev pub td_lptr_ptr : ℕ → ℕ
td_lptr_ptr ptr = bit_and ptr 0xfffffff0

abbrev pub td_err_cnt : ℕ → ℕ
td_err_cnt val = bit_and val 3 * 2 ^ 27

abbrev pub td_max_len : ℕ → ℕ
td_max_len len = bit_and len 0x3f * 2 ^ 21

abbrev pub td_dev_addr : ℕ → ℕ
td_dev_addr addr = bit_and addr 0x7f * 2 ^ 8

-- `struct transfer_descriptor`, with the first of its four words for software.
pub record Td : Type 0 where
  pub link_ptr : ℕ
  pub ctrl_status : ℕ
  pub token : ℕ
  pub buffer_ptr : ℕ
  pub swdata : ℕ

abbrev pub sizeof_td : ℕ
sizeof_td = 32

-- `&td[i]`
pub element : (td i : ℕ) → ℕ
element td i = add32 td (sizeof_td * i)

pub write_td : ℕ → Td → Bytes → Bytes
write_td p td m =
    let m_1 = store32 m p td.link_ptr in
    let m_2 = store32 m_1 (p + 4) td.ctrl_status in
    let m_3 = store32 m_2 (p + 8) td.token in
    let m_4 = store32 m_3 (p + 12) td.buffer_ptr in store32 m_4 (p + 16) td.swdata

pub read_td : ℕ → Bytes → Td
read_td p m = record {
  link_ptr = load32 m p;
  ctrl_status = load32 m (p + 4);
  token = load32 m (p + 8);
  buffer_ptr = load32 m (p + 12);
  swdata = load32 m (p + 16);
}

pub record DeviceDescriptor : Type 0 where
  pub length : ℕ
  pub desc_type : ℕ
  pub bcd_usb : ℕ
  pub device_class : ℕ
  pub device_sub_class : ℕ
  pub device_protocol : ℕ
  pub max_packet_size : ℕ
  pub vendor_id : ℕ
  pub product_id : ℕ
  pub bcd_device : ℕ
  pub manufacturer_idx : ℕ
  pub product_idx : ℕ
  pub serial_number_idx : ℕ
  pub configurations_num : ℕ

pub record UsbDevice : Type 0 where
  pub low_speed : Bool
  pub addr : ℕ
  pub dev_desc : DeviceDescriptor
  pub conf_desc : ℕ

pub record DeviceRequest : Type 0 where
  pub request_type : ℕ
  pub request : ℕ
  pub value : ℕ
  pub index : ℕ
  pub length : ℕ
