-- ===== src/Serial.antt =====
-- drivers/serial/serial.c: the serial line. The parameter `sleep` is that of Pit.antt, as what it
-- does to the devices.
pub mod Line
mod Tests
use usbloader.Common.{
  ℕ, zero, suc, ◌+◌, ◌*◌, ◌/◌, ◌%◌, ◌^◌, Bool, not, Option, none, some, ltb, ◌==◌, if◌then◌else◌,
  bit_and,
}
use usbloader.Io.{Ports}

abbrev pub com1 : ℕ
com1 = 0x3f8

-- The registers' ports, from `port` on.
abbrev pub recv_buf : ℕ → ℕ
recv_buf port = port + 0

abbrev pub send_buf : ℕ → ℕ
send_buf port = port + 0

abbrev pub int_ena : ℕ → ℕ
int_ena port = port + 1

abbrev pub div_lo_dlab : ℕ → ℕ
div_lo_dlab port = port + 0

abbrev pub div_hi_dlab : ℕ → ℕ
div_hi_dlab port = port + 1

abbrev pub fifo_ctrl : ℕ → ℕ
fifo_ctrl port = port + 2

abbrev pub line_ctrl_reg : ℕ → ℕ
line_ctrl_reg port = port + 3

abbrev pub modem_ctrl_reg : ℕ → ℕ
modem_ctrl_reg port = port + 4

abbrev pub line_status_reg : ℕ → ℕ
line_status_reg port = port + 5

module _ {ℓ} {W : Type ℓ} (ports : Ports W) where
  pub fifo_empty : (port : ℕ) → W → Bool × W
  fifo_empty port w =
      let (status, w') = ports.inb (line_status_reg port) w in (not (bit_and status 0x20 == 0), w')

  -- The loop that waits for the test byte, with `tries` left: the tries at its end.
  pub wait_ready : (sleep : ℕ → W → W) → (port tries : ℕ) → W → ℕ × W
  wait_ready sleep port zero w = (0, w)
  wait_ready sleep port (suc tries) w =
      let (status, w') = ports.inb (line_status_reg port) w in
      let rest = wait_ready sleep port tries (sleep 10 w') in
      if bit_and status 0x1 == 0 then rest else (suc tries, w')

  -- The accesses of `serial_init_port`, with its divisor.
  pub init_line : (sleep : ℕ → W → W) → (port divisor : ℕ) → W → Bool × W
  init_line sleep port divisor w =
      let w_1 = ports.outb (int_ena port) 0 w in
      let w_2 = ports.outb (line_ctrl_reg port) 0x80 w_1 in
      let w_3 = ports.outb (div_lo_dlab port) (divisor % 2 ^ 8) w_2 in
      let w_4 = ports.outb (div_hi_dlab port) (divisor / 2 ^ 8 % 2 ^ 8) w_3 in
      let w_5 = ports.outb (line_ctrl_reg port) 0x03 w_4 in
      let w_6 = ports.outb (fifo_ctrl port) 0xc7 w_5 in
      let w_7 = ports.outb (modem_ctrl_reg port) 0x1f w_6 in
      let w_8 = ports.outb (send_buf port) 0xae w_7 in
      let (tries, w_9) = wait_ready sleep port 10 w_8 in
      (ltb 0 tries, ports.outb (modem_ctrl_reg port) 0x0f w_9)

  -- `none` is the division by 0, which comes before the first access.
  pub serial_init_port : (sleep : ℕ → W → W) → (port bps : ℕ) → W → Option (Bool × W)
  serial_init_port sleep port bps w =
      if bps == 0 then none else some (init_line sleep port (1843200 / 16 / bps % 2 ^ 16) w)

  -- The loop that waits for room; `none` is fuel that ran out.
  pub wait_fifo : ℕ → (port : ℕ) → W → Option W
  wait_fifo zero port w = none
  wait_fifo (suc fuel) port w =
      let (room, w') = fifo_empty port w in
      let rest = wait_fifo fuel port w' in if not room then rest else some w'

  pub serial_write : ℕ → (port ch : ℕ) → W → Option W
  serial_write fuel port ch w = elim (wait_fifo fuel port w) [
    | none ↦ none
    | some w' ↦ some (ports.outb (send_buf port) ch w')
  ]

  pub serial_data_ready : (port : ℕ) → W → Bool × W
  serial_data_ready port w =
      let (status, w') = ports.inb (line_status_reg port) w in (not (bit_and status 0x01 == 0), w')

  pub serial_read : (port : ℕ) → W → ℕ × W
  serial_read port w =
      let (ready, w') = serial_data_ready port w in
      if not ready then (0, w') else ports.inb (recv_buf port) w'
