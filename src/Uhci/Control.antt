-- ===== src/Uhci/Control.antt =====
-- drivers/usb/uhci.c, uhci_create_td_control: the transfer descriptors of a control transfer, in
-- memory from the allocator.
pub mod Tokens
pub mod Layout
pub mod Chain
pub mod Ready
pub mod Delete
pub mod Kept
pub mod Described
mod Tests
use usbloader.Common.{
  ℕ, zero, suc, ◌+◌, ◌-◌, ◌*◌, ◌/◌, ◌%◌, ◌^◌, Bool, true, false, not, Option, none, some, ltb,
  if◌then◌else◌, bit_or,
}
use usbloader.Common.Words.{add32}
use usbloader.Memory.{Bytes, store8, store16}
use usbloader.Heap.{Heap, memalloc, memalloc_aligned, memfree}
use usbloader.Uhci.{
  Td, UsbDevice, DeviceRequest, element, write_td, read_td, sizeof_td, td_lptr_depth, td_lptr_term,
  td_low_speed, td_ioc, td_status_active, td_data_toggle, td_pid_in, td_pid_out, td_pid_setup,
  td_lptr_ptr, td_err_cnt, td_max_len, td_dev_addr,
}

abbrev pub sizeof_device_request : ℕ
sizeof_device_request = 8

abbrev pub div_ceil : (a b : ℕ) → ℕ
div_ceil a b = (a + b - 1) / b

unfoldable pub write_request : ℕ → DeviceRequest → Bytes → Bytes
write_request dr r m =
    let m_1 = store8 m dr r.request_type in
    let m_2 = store8 m_1 (dr + 1) r.request in
    store16 (store16 (store16 m_2 (dr + 2) r.value) (dr + 4) r.index) (dr + 6) r.length

-- `td_cnt`, for packets of `max_pkt_size` bytes.
unfoldable pub count_td : (length max_pkt_size : ℕ) → ℕ
count_td length max_pkt_size = (2 + div_ceil length max_pkt_size % 2 ^ 16) % 2 ^ 16

-- The packet size that is used: at least 8.
unfoldable pub packet_size : UsbDevice → ℕ
packet_size dev = if ltb dev.dev_desc.max_packet_size 8 then 8 else dev.dev_desc.max_packet_size

abbrev pub speed_flag : UsbDevice → ℕ
speed_flag dev = if dev.low_speed then td_low_speed else 0

pub setup_td : (td : ℕ) → UsbDevice → (dr : ℕ) → Td
setup_td td dev dr = record {
  link_ptr = bit_or (td_lptr_ptr (element td 1)) td_lptr_depth;
  ctrl_status = bit_or (bit_or (td_err_cnt 3) (speed_flag dev)) td_status_active;
  token =
      bit_or (bit_or (td_max_len (sizeof_device_request - 1)) (td_dev_addr dev.addr)) td_pid_setup;
  buffer_ptr = dr;
  swdata = 1;
}

-- The descriptor `i + 1`, of the data stage.
pub data_td :
    (td : ℕ) → UsbDevice → (max_pkt_size data_stage : ℕ) → (toggle : Bool) → (buf i : ℕ) → Td
data_td td dev max_pkt_size data_stage toggle buf i =
    let d : Td = record {
      link_ptr = bit_or (td_lptr_ptr (element td (i + 2))) td_lptr_depth;
      ctrl_status = bit_or (bit_or (td_err_cnt 3) (speed_flag dev)) td_status_active;
      token = bit_or (bit_or (td_max_len (max_pkt_size - 1)) (td_dev_addr dev.addr)) data_stage;
      buffer_ptr = buf;
      swdata = i + 1;
    } in
    if toggle then record d { token = bit_or d.token td_data_toggle } else d

pub status_td : UsbDevice → (status_stage td_cnt : ℕ) → Td
status_td dev status_stage td_cnt = record {
  link_ptr = td_lptr_term;
  ctrl_status = bit_or (bit_or (bit_or (td_err_cnt 3) (speed_flag dev)) td_ioc) td_status_active;
  token =
      bit_or (bit_or (bit_or (td_max_len 0x7ff) td_data_toggle) (td_dev_addr dev.addr))
        status_stage;
  buffer_ptr = 0;
  swdata = td_cnt;
}

-- The loop over the data stage, with `left` rounds to go.
unfoldable pub write_data :
    (left td : ℕ)
    → UsbDevice
    → (max_pkt_size data_stage : ℕ) → (toggle : Bool) → (buf i : ℕ) → Bytes
    → Bytes
write_data zero td dev max_pkt_size data_stage toggle buf i m = m
write_data (suc left) td dev max_pkt_size data_stage toggle buf i m =
    write_data left td dev max_pkt_size data_stage (not toggle) (add32 buf max_pkt_size) (i + 1)
      (write_td (element td (i + 1)) (data_td td dev max_pkt_size data_stage toggle buf i) m)

-- The descriptors of a transfer, at `td`.
unfoldable pub write_control :
    (td : ℕ) → UsbDevice → (td_cnt dr data_stage status_stage buf : ℕ) → Bytes → Bytes
write_control td dev td_cnt dr data_stage status_stage buf m =
    let m_1 = write_td (element td 0) (setup_td td dev dr) m in
    let m_2 = write_data (td_cnt - 2) td dev (packet_size dev) data_stage true buf 0 m_1 in
    write_td (element td (td_cnt - 1)) (status_td dev status_stage td_cnt) m_2

-- The number of descriptors, the first of them, and the heap.
unfoldable pub uhci_create_td_control :
    ℕ
    → UsbDevice
    → DeviceRequest
    → (data_stage status_stage buf : ℕ) → Heap
    → Option ((ℕ × ℕ) × Heap)
uhci_create_td_control fuel dev r data_stage status_stage buf h =
    elim (memalloc fuel sizeof_device_request h) [
      | none ↦ none
      | some (dr, h_1) ↦
          let h_2 = record h_1 { bytes = write_request dr r h_1.bytes } in
          let td_cnt = count_td r.length (packet_size dev) in
          elim (memalloc_aligned fuel (sizeof_td * td_cnt) 16 h_2) [
            | none ↦ none
            | some (td, h_3) ↦ some (
              (td_cnt, td),
              record h_3 {
                bytes = write_control td dev td_cnt dr data_stage status_stage buf h_3.bytes;
              },
            )
          ]
    ]

abbrev pub dr_rt_xdir_host_dev : ℕ
dr_rt_xdir_host_dev = 0

abbrev pub dr_rt_xdir_dev_host : ℕ
dr_rt_xdir_dev_host = 2 ^ 7

abbrev pub dr_rt_type_standard : ℕ
dr_rt_type_standard = 0

abbrev pub dr_rt_recipient_device : ℕ
dr_rt_recipient_device = 0

abbrev pub standard_request : (request_type request value index length : ℕ) → DeviceRequest
standard_request request_type request value index length = record {
  request_type = request_type;
  request = request;
  value = value;
  index = index;
  length = length;
}

unfoldable pub uhci_create_td_control_in :
    ℕ → UsbDevice → (request value index length buf : ℕ) → Heap → Option ((ℕ × ℕ) × Heap)
uhci_create_td_control_in fuel dev request value index length buf h =
    let request_type =
      bit_or (bit_or dr_rt_xdir_dev_host dr_rt_type_standard) dr_rt_recipient_device in
    uhci_create_td_control fuel dev (standard_request request_type request value index length)
      td_pid_in td_pid_out buf h

pub uhci_create_td_control_out :
    ℕ → UsbDevice → (request value index length buf : ℕ) → Heap → Option ((ℕ × ℕ) × Heap)
uhci_create_td_control_out fuel dev request value index length buf h =
    let request_type =
      bit_or (bit_or dr_rt_xdir_host_dev dr_rt_type_standard) dr_rt_recipient_device in
    uhci_create_td_control fuel dev (standard_request request_type request value index length)
      td_pid_out td_pid_in buf h

-- `uhci_delete_td_control`; the request's address is read from the first descriptor.
pub uhci_delete_td_control : ℕ → (td : ℕ) → Heap → Option Heap
uhci_delete_td_control fuel td h = elim (memfree fuel (read_td td h.bytes).buffer_ptr h) [
  | none ↦ none
  | some h_1 ↦ memfree fuel td h_1
]
