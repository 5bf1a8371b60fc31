-- ===== src/Screen/Tests.antt =====
-- Text over memory whose bytes are their addresses, beside a controller with an index and registers.
use usbloader.Common.{
  ℕ, ◌+◌, ◌%◌, ◌≡◌, refl, inl, arith, ◌==◌, if◌then◌else◌, List, [], ◌∷◌, update, length,
}
use usbloader.Memory.{Bytes}
use usbloader.Io.{Ports}
use usbloader.Screen.{
  Screen, screen_scroll, print_string, move_vga_cursor, get_vga_cursor, vga_color_mem, newline,
}
use usbloader.Screen.Scroll.{screen_scroll-moved}
use usbloader.Screen.Cursor.{OnScreen, print_string-safe}
use usbloader.Screen.Text.{cell_at, text, print_string-text}
use usbloader.Screen.Device.{Crtc, get_vga_cursor-move_vga_cursor}

record Controller : Type 0 where
  selected_index : ℕ
  values : ℕ → ℕ

abbrev controller_ports : Ports Controller
controller_ports = record {
  outl = λ port v w. w;
  outw = λ port v w. w;
  outb = λ port v w.
      if port == 980
      then record w { selected_index = v }
      else record w { values = update w.values w.selected_index (v % 256) };
  inl = λ port w. (0, w);
  inw = λ port w. (0, w);
  inb = λ port w. (w.values w.selected_index, w);
}

controller_ports-Crtc : Crtc controller_ports
controller_ports-Crtc = record {
  index = λ w. w.selected_index;
  registers = λ w. w.values;
  select_index = λ v w. refl;
  select_registers = λ v w i. refl;
  write_registers = λ v w i. refl;
  read_value = λ w. refl;
  read_registers = λ w i. refl;
}

abbrev plain : Bytes
plain x = x

abbrev screen : Screen
screen = record { curs_row = 24; curs_col = 3; memory = plain }

abbrev off : Controller
off = record { selected_index = 0; values = λ i. 0 }

get_vga_cursor-move_vga_cursor_example :
    (get_vga_cursor controller_ports (move_vga_cursor controller_ports 7 24 off)).0 ≡ (7, 24)
get_vga_cursor-move_vga_cursor_example =
    get_vga_cursor-move_vga_cursor controller_ports controller_ports-Crtc 7 24 off (omega arith)
      (omega arith)

-- A text with a newline in the last row, which scrolls the screen.
abbrev two_lines : List ℕ
two_lines = 104 ∷ newline ∷ 105 ∷ []

print_string-safe_example :
    OnScreen (print_string controller_ports two_lines screen off).0
    × ((print_string controller_ports two_lines screen off).0.memory 4096 ≡ 4096)
print_string-safe_example =
    print_string-safe controller_ports two_lines screen off 4096 (omega arith, omega arith)
      (inl (omega arith))

abbrev word : List ℕ
word = 111 ∷ 107 ∷ []

print_string-text_example :
    let (s', w') = print_string controller_ports word screen off in
    (s'.curs_row ≡ 24)
    × (s'.curs_col ≡ 3 + length word)
    × (s'.memory 757512 ≡ text word (cell_at 24 3) plain 757512)
    × (w' ≡ move_vga_cursor controller_ports (3 + length word) 24 off)
print_string-text_example =
    print_string-text controller_ports word screen off 757512 refl (omega arith)

screen_scroll-moved_example :
    screen_scroll plain (vga_color_mem + 3840) ≡ (vga_color_mem + 3840 + 160) % 256
screen_scroll-moved_example = screen_scroll-moved plain 3840 (omega arith)
