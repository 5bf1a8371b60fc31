-- ===== src/Screen/Device.antt =====
-- The cursor of the display controller, as print.c sets it and reads it.
use usbloader.Common.{ℕ, ◌+◌, ◌*◌, ◌/◌, ◌%◌, ◌<◌, ◌≡◌, refl, ◌∙◌, arith, bit_and, bit_or, update}
use usbloader.Common.Bits.{bit_and-low, bit_or-add_low, bit_or-zero}
use usbloader.Io.{Ports}
use usbloader.Screen.{
  move_vga_cursor, get_vga_cursor, crtc_address, crtc_data, vga_width, vga_height,
}

-- The controller behind the two ports: an index, and the register of each index.
pub record Crtc {ℓ} {W : Type ℓ} (ports : Ports W) : Type ℓ where
  pub index : W → ℕ
  pub registers : W → ℕ → ℕ
  pub select_index : (v : ℕ) (w : W) → index (ports.outb crtc_address v w) ≡ v
  pub select_registers :
      (v : ℕ) (w : W) (i : ℕ) → registers (ports.outb crtc_address v w) i ≡ registers w i
  pub write_registers :
      (v : ℕ) (w : W) (i : ℕ)
      → registers (ports.outb crtc_data v w) i ≡ update (registers w) (index w) (v % 256) i
  pub read_value : (w : W) → (ports.inb crtc_data w).0 ≡ registers w (index w)
  pub read_registers : (w : W) (i : ℕ) → registers (ports.inb crtc_data w).1 i ≡ registers w i

module _ {ℓ} {W : Type ℓ} (ports : Ports W) (crtc : Crtc ports) where
  -- What is written are the two bytes of the position.
  move_vga_cursor-registers :
      (column row : ℕ) (w : W) (i : ℕ)
      → row * 80 + column < 65536
      → crtc.registers (move_vga_cursor ports column row w) i
        ≡ update
            (update (crtc.registers w) 15 ((row * 80 + column) % 256))
            14
            ((row * 80 + column) / 256)
            i
  unfolding move_vga_cursor
  move_vga_cursor-registers column row w i small =
      let pos = row * 80 + column in
      let whole : pos % 65536 ≡ pos = omega arith in
      let low : bit_and pos 255 % 256 ≡ pos % 256 = rw (bit_and-low 8 pos) (omega arith) in
      let high : bit_and (pos / 256) 255 % 256 ≡ pos / 256 =
        rw (bit_and-low 8 (pos / 256)) (omega arith) in
      simp (crtc.write_registers, crtc.select_registers, crtc.select_index, whole, low, high) refl

  get_vga_cursor-registers :
      (w : W)
      → (get_vga_cursor ports w).0 ≡ (
          let pos = bit_or (bit_or 0 (crtc.registers w 15)) (crtc.registers w 14 * 256 % 65536) in
          (pos % 80 % 256, pos / 80 % 256))
  unfolding get_vga_cursor
  get_vga_cursor-registers w =
      simp (crtc.read_value, crtc.read_registers, crtc.select_registers, crtc.select_index) refl

  -- At a display controller with an index and registers behind its two ports, get_vga_cursor after
  -- move_vga_cursor reads the column and the row that were set, for each place on the screen.
  pub get_vga_cursor-move_vga_cursor :
      (column row : ℕ) (w : W)
      → column < vga_width
      → row < vga_height
      → (get_vga_cursor ports (move_vga_cursor ports column row w)).0 ≡ (column, row)
  get_vga_cursor-move_vga_cursor column row w in_row in_screen =
      let pos = row * 80 + column in
      let first = move_vga_cursor-registers column row w 15 (omega arith) in
      let second = move_vga_cursor-registers column row w 14 (omega arith) in
      let high : pos / 256 * 256 % 65536 ≡ pos / 256 * 256 = omega arith in
      let joined : bit_or (pos % 256) (pos / 256 * 256) ≡ pos =
        bit_or-add_low 8 (pos / 256) (pos % 256) (omega arith) ∙ omega arith in
      let col_eq : pos % 80 % 256 ≡ column = omega arith in
      let row_eq : pos / 80 % 256 ≡ row = omega arith in
      get_vga_cursor-registers (move_vga_cursor ports column row w)
      ∙ rw (first, second, high, bit_or-zero (pos % 256), joined, col_eq, row_eq) refl
