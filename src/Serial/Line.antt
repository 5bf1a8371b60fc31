-- ===== src/Serial/Line.antt =====
-- serial.c at a UART: what its registers hold after serial_init_port, init_line, and the loops' ends.
use usbloader.Common.{
  ℕ, zero, suc, ◌+◌, ◌/◌, ◌%◌, ◌^◌, ◌<◌, ◌≡◌, refl, ap, ◌∙◌, Bool, true, false, not, some, arith,
  ◌==◌, Bool-cases, inl, inr, if◌then◌else◌, bit_and, List, [], ◌∷◌, ◌++◌,
}
use usbloader.Io.{Ports}
use usbloader.Serial.{
  fifo_empty, wait_ready, init_line, serial_init_port, wait_fifo, serial_write, line_status_reg,
}

-- The registers of a 16550 UART, and the bytes that it was given to send.
pub record Uart : Type 0 where
  pub int_ena : ℕ
  pub line_ctrl : ℕ
  pub div_lo : ℕ
  pub div_hi : ℕ
  pub fifo_ctrl : ℕ
  pub modem_ctrl : ℕ
  pub sent : List ℕ

-- While the top bit of the line control register is set, the first two registers are the divisor.
abbrev pub dlab : Uart → Bool
dlab u = u.line_ctrl / 128 % 2 == 1

abbrev pub write_reg : (k v : ℕ) → Uart → Uart
write_reg zero v u =
    if dlab u then record u { div_lo = v } else record u { sent = u.sent ++ v ∷ [] }
write_reg (suc zero) v u = if dlab u then record u { div_hi = v } else record u { int_ena = v }
write_reg (suc (suc zero)) v u = record u { fifo_ctrl = v }
write_reg (suc (suc (suc zero))) v u = record u { line_ctrl = v }
write_reg (suc (suc (suc (suc zero)))) v u = record u { modem_ctrl = v }
write_reg (suc (suc (suc (suc (suc k))))) v u = u

-- A device with a UART at `port`. Reading the line's status changes none of its registers.
pub record HasUart {ℓ} {W : Type ℓ} (ports : Ports W) (port : ℕ) : Type ℓ where
  pub uart : W → Uart
  pub write : (k v : ℕ) (w : W) → k < 8 → uart (ports.outb (port + k) v w) ≡ write_reg k v (uart w)
  pub status : (w : W) → uart (ports.inb (line_status_reg port) w).1 ≡ uart w

module _ {ℓ} {W : Type ℓ} (ports : Ports W) (port : ℕ) (d : HasUart ports port) where
  module _ (sleep : ℕ → W → W) (quiet : (ms : ℕ) (w : W) → d.uart (sleep ms w) ≡ d.uart w) where
    wait_ready-uart :
        (tries : ℕ) (w : W) → d.uart (wait_ready ports sleep port tries w).1 ≡ d.uart w
    unfolding wait_ready
    wait_ready-uart zero w = refl
    wait_ready-uart (suc tries) w =
        let (status, w') = ports.inb (line_status_reg port) w in
        elim (Bool-cases (bit_and status 1 == 0)) [
          | inl e ↦
              rw (wait_ready, e) (wait_ready-uart tries (sleep 10 w') ∙ quiet 10 w' ∙ d.status w)
          | inr e ↦ rw (wait_ready, e) (d.status w)
        ]

    then_write :
        (k v : ℕ) (w : W) {u : Uart}
        → k < 8
        → d.uart w ≡ u
        → d.uart (ports.outb (port + k) v w) ≡ write_reg k v u
    then_write k v w lt e = d.write k v w lt ∙ ap (write_reg k v) e

    init_line-uart :
        (divisor : ℕ) (w : W)
        → divisor < 2 ^ 16
        → (d.uart w).line_ctrl < 128
        → d.uart (init_line ports sleep port divisor w).1 ≡ record {
          int_ena = 0;
          line_ctrl = 3;
          div_lo = divisor % 256;
          div_hi = divisor / 256;
          fifo_ctrl = 0xc7;
          modem_ctrl = 0x0f;
          sent = (d.uart w).sent ++ 0xae ∷ [];
        }
    unfolding init_line
    init_line-uart divisor w small idle =
        let high : divisor / 256 % 256 ≡ divisor / 256 = omega arith in
        let start : (d.uart w).line_ctrl / 128 % 2 ≡ 0 = omega arith in
        let off : dlab (d.uart w) ≡ false = rw start refl in
        let w_1 = ports.outb (port + 1) 0 w in
        let w_2 = ports.outb (port + 3) 0x80 w_1 in
        let w_3 = ports.outb (port + 0) (divisor % 256) w_2 in
        let w_4 = ports.outb (port + 1) (divisor / 256 % 256) w_3 in
        let w_5 = ports.outb (port + 3) 0x03 w_4 in
        let w_6 = ports.outb (port + 2) 0xc7 w_5 in
        let w_7 = ports.outb (port + 4) 0x1f w_6 in
        let w_8 = ports.outb (port + 0) 0xae w_7 in
        let w_9 = (wait_ready ports sleep port 10 w_8).1 in
        let e_1 = then_write 1 0 w (omega arith) refl in
        let e_2 = then_write 3 0x80 w_1 (omega arith) e_1 in
        let e_3 = then_write 0 (divisor % 256) w_2 (omega arith) e_2 in
        let e_4 = then_write 1 (divisor / 256 % 256) w_3 (omega arith) e_3 in
        let e_5 = then_write 3 0x03 w_4 (omega arith) e_4 in
        let e_6 = then_write 2 0xc7 w_5 (omega arith) e_5 in
        let e_7 = then_write 4 0x1f w_6 (omega arith) e_6 in
        let e_8 = then_write 0 0xae w_7 (omega arith) e_7 in
        let e_9 = then_write 4 0x0f w_9 (omega arith) (wait_ready-uart 10 w_8 ∙ e_8) in
        e_9 ∙ rw (off, high) refl

    -- For a rate other than 0, at a UART whose divisor latch is closed, with a sleep that leaves
    -- its registers alone, serial_init_port returns and leaves its interrupts off, the divisor of
    -- the rate in its divisor registers, the latch closed with 8 data bits, the FIFO on and the
    -- loopback off, and has sent the test byte and nothing else, whether the test byte came back or
    -- not.
    pub serial_init_port-uart :
        (bps : ℕ) (w : W)
        → 0 < bps
        → (d.uart w).line_ctrl < 128
        → let divisor = 115200 / bps % 65536 in
          (r : Bool × W) × (serial_init_port ports sleep port bps w ≡ some r)
          × (d.uart r.1 ≡ record {
            int_ena = 0;
            line_ctrl = 3;
            div_lo = divisor % 256;
            div_hi = divisor / 256;
            fifo_ctrl = 0xc7;
            modem_ctrl = 0x0f;
            sent = (d.uart w).sent ++ 0xae ∷ [];
          })
    unfolding serial_init_port
    serial_init_port-uart bps w pos idle =
        let divisor = 115200 / bps % 65536 in
        let rate : (bps == 0) ≡ false = ground arith in
        (
          init_line ports sleep port divisor w,
          rw (serial_init_port, rate) refl,
          init_line-uart divisor w (omega arith) idle,
        )

  -- The devices after `k` readings of the line's status.
  abbrev pub polled : (k : ℕ) → W → W
  polled zero w = w
  polled (suc k) w = polled k (ports.inb (line_status_reg port) w).1

  -- The next reading of the line's status says that there is room.
  abbrev pub has_room : W → Bool
  has_room w = not (bit_and (ports.inb (line_status_reg port) w).0 0x20 == 0)

  wait_fifo-uart :
      (k fuel : ℕ) (w : W)
      → has_room (polled k w) ≡ true
      → k < fuel
      → (w' : W) × (wait_fifo ports fuel port w ≡ some w') × (d.uart w' ≡ d.uart w)
  unfolding wait_fifo fifo_empty
  wait_fifo-uart k zero w room lt = absurd (omega arith)
  wait_fifo-uart zero (suc fuel) w room lt =
      ((ports.inb (line_status_reg port) w).1, rw room refl, d.status w)
  wait_fifo-uart (suc k) (suc fuel) w room lt =
      let w_1 = (ports.inb (line_status_reg port) w).1 in
      elim (Bool-cases (has_room w)) [
        | inl e ↦ (w_1, rw e refl, d.status w)
        | inr e ↦
            let (w', call, same) = wait_fifo-uart k fuel w_1 room (omega arith) in
            (w', rw e call, same ∙ d.status w)
      ]

  -- At a UART whose divisor latch is closed, when there is room at the reading k of its status and
  -- the fuel is above k, serial_write returns, and the UART was given the byte and nothing else.
  pub serial_write-sends :
      (k fuel ch : ℕ) (w : W)
      → (d.uart w).line_ctrl < 128
      → has_room (polled k w) ≡ true
      → k < fuel
      → (w' : W) × (serial_write ports fuel port ch w ≡ some w')
        × (d.uart w' ≡ record (d.uart w) { sent = (d.uart w).sent ++ ch ∷ [] })
  unfolding serial_write
  serial_write-sends k fuel ch w idle room lt =
      let (w_1, call, same) = wait_fifo-uart k fuel w room lt in
      let start : (d.uart w).line_ctrl / 128 % 2 ≡ 0 = omega arith in
      let off : dlab (d.uart w) ≡ false = rw start refl in
      (
        ports.outb (port + 0) ch w_1,
        rw (serial_write, call) refl,
        d.write 0 ch w_1 (omega arith) ∙ ap (write_reg 0 ch) same ∙ rw off refl,
      )
