-- ===== src/Serial/Tests.antt =====
-- A UART at COM1 that has the test byte at the third reading of its status, and room at the second.
use usbloader.Common.{Bool, ℕ, ◌+◌, ◌-◌, ◌≡◌, refl, some, arith, [], ◌∷◌, ltb, if◌then◌else◌}
use usbloader.Io.{Ports}
use usbloader.Serial.{com1, serial_init_port, serial_write}
use usbloader.Serial.Line.{Uart, HasUart, write_reg, serial_init_port-uart, serial_write-sends}

-- The registers and the readings of the status so far.
abbrev Device : Type 0
Device = Uart × ℕ

abbrev uart_ports : Ports Device
uart_ports = record {
  outl = λ p v w. w;
  outw = λ p v w. w;
  outb = λ p v w. (write_reg (p - com1) v w.0, w.1);
  inl = λ p w. (0, w);
  inw = λ p w. (0, w);
  inb = λ p w. (if ltb w.1 2 then 0 else 0x21, (w.0, w.1 + 1));
}

at_com1 : (k : ℕ) → com1 + k - com1 ≡ k
at_com1 k = omega arith

abbrev uart_device : HasUart uart_ports com1
uart_device = record {
  uart = λ w. w.0;
  write = λ k v w lt. rw (at_com1 k) refl;
  status = λ w. refl;
}

abbrev idle : Uart
idle = record {
  int_ena = 7;
  line_ctrl = 3;
  div_lo = 0;
  div_hi = 0;
  fifo_ctrl = 0;
  modem_ctrl = 0;
  sent = [];
}

serial_init_port-uart_example :
    (r : Bool × Device) × (serial_init_port uart_ports (λ ms w. w) com1 115200 (idle, 0) ≡ some r)
    × (r.1.0 ≡ record {
      int_ena = 0;
      line_ctrl = 3;
      div_lo = 1;
      div_hi = 0;
      fifo_ctrl = 0xc7;
      modem_ctrl = 0x0f;
      sent = 0xae ∷ [];
    })
serial_init_port-uart_example =
    serial_init_port-uart uart_ports com1 uart_device (λ ms w. w) (λ ms w. refl) 115200 (idle, 0)
      (omega arith) (omega arith)

serial_write-sends_example :
    (w' : Device) × (serial_write uart_ports 3 com1 65 (idle, 0) ≡ some w')
    × (w'.0 ≡ record idle { sent = 65 ∷ [] })
serial_write-sends_example =
    serial_write-sends uart_ports com1 uart_device 2 3 65 (idle, 0) (omega arith) refl (omega arith)
