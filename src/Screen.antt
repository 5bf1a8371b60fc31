-- ===== src/Screen.antt =====
-- drivers/display/print.c: text on the VGA screen. The screen is the part of memory from
-- `vga_color_mem` on, a character and a colour for each place; a string is the list of its
-- characters before the NUL.
pub mod Scroll
pub mod Cursor
pub mod Text
pub mod Device
pub mod Number
pub mod PciText
mod Tests
use usbloader.Common.{
  ℕ, zero, suc, ◌+◌, ◌-◌, ◌*◌, ◌/◌, ◌%◌, ◌^◌, List, [], ◌∷◌, ◌==◌, if◌then◌else◌, bit_and, bit_or,
}
use usbloader.Memory.{Bytes, store8}
use usbloader.Io.{Ports}

abbrev pub vga_width : ℕ
vga_width = 80

abbrev pub vga_height : ℕ
vga_height = 25

abbrev pub vga_color_mem : ℕ
vga_color_mem = 753664

abbrev pub vga_light_gray : ℕ
vga_light_gray = 7

abbrev pub crtc_address : ℕ
crtc_address = 980

abbrev pub crtc_data : ℕ
crtc_data = 981

abbrev pub newline : ℕ
newline = 10

abbrev pub space : ℕ
space = 32

pub record Screen : Type 0 where
  pub curs_row : ℕ
  pub curs_col : ℕ
  pub memory : Bytes

-- The loop that moves the rows up, with `left` bytes between `src` and its end.
pub move_up : (left dst src : ℕ) → Bytes → Bytes
move_up zero dst src m = m
move_up (suc left) dst src m = move_up left (dst + 1) (src + 1) (store8 m dst (m src))

-- The loop that writes `left` blanks from `dst` on.
pub blank : (left dst : ℕ) → Bytes → Bytes
blank zero dst m = m
blank (suc left) dst m = blank left (dst + 2) (store8 (store8 m dst space) (dst + 1) vga_light_gray)

pub screen_scroll : Bytes → Bytes
screen_scroll m =
    let video_dst = vga_color_mem in
    let video_src = video_dst + vga_width * 2 in
    let video_end = vga_color_mem + vga_width * 2 * vga_height * 2 in
    let left = video_end - video_src in
    blank vga_width (video_dst + left) (move_up left video_dst video_src m)

pub advance_cursor_newline : Screen → Screen
advance_cursor_newline s =
    if s.curs_row + 1 == vga_height
    then record s { curs_col = 0; memory = screen_scroll s.memory }
    else record s { curs_row = (s.curs_row + 1) % 2 ^ 8; curs_col = 0 }

pub advance_cursor : Screen → Screen
advance_cursor s =
    if s.curs_col + 1 == vga_width
    then advance_cursor_newline s
    else record s { curs_col = (s.curs_col + 1) % 2 ^ 8 }

-- One character at the cursor.
pub put : ℕ → Screen → Screen
put c s =
    let video = vga_color_mem + s.curs_row * vga_width * 2 + s.curs_col * 2 in
    if c == newline
    then advance_cursor_newline s
    else advance_cursor
        (record s { memory = store8 (store8 s.memory video c) (video + 1) vga_light_gray })

-- The loop of `print_string`.
pub put_all : List ℕ → Screen → Screen
put_all [] s = s
put_all (c ∷ cs) s = put_all cs (put c s)

pub move_vga_cursor {ℓ} : {W : Type ℓ} → Ports W → (column row : ℕ) → W → W
move_vga_cursor ports column row w =
    let pos = (row * vga_width + column) % 2 ^ 16 in
    let w_1 = ports.outb crtc_address 15 w in
    let w_2 = ports.outb crtc_data (bit_and pos 255) w_1 in
    let w_3 = ports.outb crtc_address 14 w_2 in ports.outb crtc_data (bit_and (pos / 256) 255) w_3

-- The cursor that the device holds: its column and its row.
pub get_vga_cursor {ℓ} : {W : Type ℓ} → Ports W → W → (ℕ × ℕ) × W
get_vga_cursor ports w =
    let (low, w_1) = ports.inb crtc_data (ports.outb crtc_address 15 w) in
    let pos = bit_or 0 low in
    let (high, w_2) = ports.inb crtc_data (ports.outb crtc_address 14 w_1) in
    let pos' = bit_or pos (high * 2 ^ 8 % 2 ^ 16) in
    ((pos' % vga_width % 2 ^ 8, pos' / vga_width % 2 ^ 8), w_2)

pub print_string {ℓ} : {W : Type ℓ} → Ports W → List ℕ → Screen → W → Screen × W
print_string ports string s w =
    let s' = put_all string s in (s', move_vga_cursor ports s'.curs_col s'.curs_row w)

pub init_output {ℓ} : {W : Type ℓ} → Ports W → Screen → W → Screen × W
init_output ports s w =
    let ((column, row), w') = get_vga_cursor ports w in
    print_string ports (newline ∷ []) (record s { curs_row = row; curs_col = column }) w'
