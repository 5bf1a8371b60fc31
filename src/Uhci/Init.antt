-- ===== src/Uhci/Init.antt =====
-- drivers/usb/uhci.c: the controller's initialisation, from the frame list to the devices at its
-- ports. A `struct uhci_dev` is in memory. `ports`, `sleep` and the other parameters take the whole
-- machine, which an interrupt or the controller may change.
pub mod Device
pub mod Refused
pub mod Frames
pub mod FrameList
mod Tests
use usbloader.Common.{
  ℕ, zero, suc, ◌+◌, ◌-◌, ◌*◌, ◌/◌, ◌%◌, ◌^◌, Bool, true, false, not, ltb, ◌&&◌, ◌==◌,
  if◌then◌else◌, Option, none, some, List, [], ◌∷◌, bit_and, bit_or,
}
use Prim.Native.String.{String}
use usbloader.Memory.{Bytes, store8, store16, store32, load16, load32}
use usbloader.Io.{Ports}
use usbloader.Console.{Console}
use usbloader.Copy.{memfill}
use usbloader.Heap.{memalloc, memalloc_aligned, memfree}
use usbloader.Pci.{pci_write_16}
use usbloader.Pci.Devices.{Found, PciHeader, Type00}
use usbloader.Screen.Number.{wstr_to_str}
use usbloader.Uhci.{Td, td_status_active, td_lptr_term}
use usbloader.Uhci.Queue.{flp_ptr}
use usbloader.Uhci.Registers.{
  UhciDev, uhci_read_16, uhci_write_16, uhci_write_32, uhci_reset, uhci_find_ports,
  uhci_enable_device_on_port, usbintr, usbcmd, frbaseadd, port_regs, portsc_connect_status_chg,
  portsc_low_speed,
}
use usbloader.Uhci.Requests.{
  Machine, bytes_of, Act, ◌>>=◌, pure, on_heap, release, modify, dev_desc_field, uhci_read_dev_desc,
  uhci_read_dev_desc_maxpkg, uhci_set_device_address, uhci_read_string_desc,
}

abbrev pub frame_list_size : ℕ
frame_list_size = 1024

abbrev pub frame_list_align : ℕ
frame_list_align = 4096

abbrev pub frbaseadd_ptr : ℕ → ℕ
frbaseadd_ptr ptr = bit_and ptr 0xfffff000

abbrev pub flp_qh : ℕ
flp_qh = 2 ^ 1

abbrev pub flp_term : ℕ
flp_term = 1

abbrev pub hoff_uhci_legsup : ℕ
hoff_uhci_legsup = 0xc0

abbrev pub hoff_command : ℕ
hoff_command = 0x4

abbrev pub cmd_busmaster_mask : ℕ
cmd_busmaster_mask = 2 ^ 2

abbrev pub usbbase_bar_idx : ℕ
usbbase_bar_idx = 4

-- The interrupts that are enabled: short packet, completion, resume, and CRC error or time-out.
abbrev pub usbintr_all : ℕ
usbintr_all = bit_or (bit_or (2 ^ 3) (2 ^ 2)) (bit_or (2 ^ 1) (2 ^ 0))

abbrev pub usbcmd_max_pkt_size : ℕ
usbcmd_max_pkt_size = 2 ^ 7

abbrev pub usbcmd_run : ℕ
usbcmd_run = 2 ^ 0

abbrev pub sizeof_uhci_dev : ℕ
sizeof_uhci_dev = 20

abbrev pub sizeof_queue_head : ℕ
sizeof_queue_head = 8

abbrev pub sizeof_int_handler : ℕ
sizeof_int_handler = 12

abbrev pub sizeof_usb_device : ℕ
sizeof_usb_device = 24

-- `&dev->header.command` of a `struct pci_dev`: the header is aligned to 4.
abbrev pub command_field : ℕ → ℕ
command_field dev = dev + 4 + 4

-- `struct uhci_dev` in memory.
pub read_uhci_dev : ℕ → Bytes → UhciDev
read_uhci_dev p m = record {
  iobase = load16 m p;
  frame_list_base = load32 m (p + 4);
  portnum = m (p + 8);
  pci_dev = load32 m (p + 12);
  qh1ms = load32 m (p + 16);
}

-- The entries of the frame list, with `left` to go.
pub fill_list : (left flist entry : ℕ) → Bytes → Bytes
fill_list zero flist entry m = m
fill_list (suc left) flist entry m = fill_list left (flist + 4) entry (store32 m flist entry)

pub is_uhci_device : PciHeader → Bool
is_uhci_device h = h.class_code == 0x0c && h.subclass == 0x03 && h.prog_if == 0

-- `dev_header->u.type00.bar[i]` of the base addresses that were read.
pub bar_at : List ℕ → ℕ → ℕ
bar_at [] i = 0
bar_at (b ∷ bs) zero = b
bar_at (b ∷ bs) (suc i) = bar_at bs i

module _ {ℓ} {W : Type ℓ} (console : Console W) where
  -- A test of `uhci_print_td_status`: the message for a status bit, which makes the answer false.
  pub report : Td → (bit : ℕ) → String → Bool × W → Bool × W
  report td bit message (is_ok, w) =
      if not (bit_and td.ctrl_status bit == 0) then (false, console.print message w) else (is_ok, w)

  pub uhci_print_td_status : Td → W → Bool × W
  uhci_print_td_status td w =
      let w_1 =
        if not (bit_and td.ctrl_status td_status_active == 0)
        then console.print "TD active\n" w
        else w in
      let r_1 = report td (2 ^ 22) "TD stalled\n" (true, w_1) in
      let r_2 = report td (2 ^ 21) "TD data buffer error\n" r_1 in
      let r_3 = report td (2 ^ 20) "TD babble\n" r_2 in
      let r_4 = report td (2 ^ 19) "TD nak\n" r_3 in
      let r_5 = report td (2 ^ 18) "TD crc error or timeout\n" r_4 in
      let (is_ok, w_2) = report td (2 ^ 17) "TD bitstuff error\n" r_5 in
      if is_ok
      then (true, w_2)
      else (let w_3 = console.print "ERR CNT: " w_2 in
          let w_4 = console.print_number (bit_and td.ctrl_status (3 * 2 ^ 27) / 2 ^ 27) 10 w_3 in
          let w_5 = console.print "SWDATA ID: " (console.print "\n" w_4) in
          (false, console.print "\n" (console.print_number td.swdata 10 w_5)))

module _ {ℓ} {W : Type ℓ} where
  abbrev pub perform : (Machine W → Machine W) → Act W (Unit {0})
  perform f s = some (tt, f s)

  abbrev pub ask : {A : Type 0} → (Machine W → A × Machine W) → Act W A
  ask f s = some (f s)

  abbrev pub get : {A : Type 0} → (Bytes → A) → Act W A
  get f s = some (f (bytes_of s), s)

  -- `memfill(p, 0, size)`
  pub zero_out : (fuel p size : ℕ) → Act W (Unit {0})
  zero_out fuel p size s = elim (memfill fuel p 0 size (bytes_of s)) [
    | none ↦ none
    | some (q, m) ↦ some (tt, record s { heap = record (s.heap) { bytes = m } })
  ]
