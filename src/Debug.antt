-- ===== src/Debug.antt =====
-- utils/gdbstub.c: what the debugger's stub calls. It sends and receives at COM1, and it sets the
-- gates of the interrupt table (arch/idt.h), which is in memory. The table's address, which the
-- instruction `sidt` gives, is a parameter.
pub mod Gates
mod Tests
use usbloader.Common.{
  ℕ, zero, suc, ◌+◌, ◌*◌, ◌/◌, ◌%◌, ◌^◌, Bool, ◌||◌, not, Option, none, some, leb, ◌==◌,
  if◌then◌else◌, bit_and, bit_or,
}
use usbloader.Common.Words.{add32}
use usbloader.Memory.{Bytes, store16}
use usbloader.Io.{Ports}
use usbloader.Serial.{com1, serial_write, serial_data_ready, serial_read}

abbrev pub idt_gate_present : ℕ
idt_gate_present = 2 ^ 15

abbrev pub idt_gate_dpl_ring0 : ℕ
idt_gate_dpl_ring0 = 0

abbrev pub idt_gate_32int : ℕ
idt_gate_32int = 0xe * 2 ^ 8

abbrev pub idt_gate_32trap : ℕ
idt_gate_32trap = 0xf * 2 ^ 8

abbrev pub sizeof_idt_gate : ℕ
sizeof_idt_gate = 8

-- The fields of `struct idt_gate`: the offset's halves and the flags, after the segment.
abbrev pub set_offset_low : ℕ → ℕ → Bytes → Bytes
set_offset_low gate v m = store16 m gate v

abbrev pub set_flags : ℕ → ℕ → Bytes → Bytes
set_flags gate v m = store16 m (gate + 4) v

abbrev pub set_offset_high : ℕ → ℕ → Bytes → Bytes
set_offset_high gate v m = store16 m (gate + 6) v

pub exception_handler : (idtr_offset exception_number exception_address : ℕ) → Bytes → Bytes
exception_handler idtr_offset exception_number exception_address m =
    let gate_type =
      if exception_number == 2 || leb 32 exception_number
      then idt_gate_32int
      else idt_gate_32trap in
    let gate = add32 idtr_offset (sizeof_idt_gate * exception_number) in
    let m_1 = set_offset_high gate (exception_address / 2 ^ 16 % 2 ^ 16) m in
    let m_2 = set_offset_low gate (bit_and exception_address 0xffff) m_1 in
    set_flags gate (bit_or (bit_or idt_gate_present idt_gate_dpl_ring0) gate_type) m_2

module _ {ℓ} {W : Type ℓ} (ports : Ports W) where
  pub put_debug_char : ℕ → (ch : ℕ) → W → Option W
  put_debug_char fuel ch w = serial_write ports fuel com1 (ch % 2 ^ 8) w

  pub get_debug_char : ℕ → W → Option (ℕ × W)
  get_debug_char zero w = none
  get_debug_char (suc fuel) w =
      let (ready, w') = serial_data_ready ports com1 w in
      let rest = get_debug_char fuel w' in
      if not ready then rest else some (serial_read ports com1 w')
