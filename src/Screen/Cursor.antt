-- ===== src/Screen/Cursor.antt =====
-- What print_string of print.c does to the cursor and to memory.
use usbloader.Common.{
  ℕ, ◌+◌, ◌*◌, ◌≤◌, ◌<◌, ◌≡◌, refl, ◌⊎◌, ◌∙◌, arith, ◌==◌, Bool-cases, inl, inr, List, [], ◌∷◌,
}
use usbloader.Memory.{store8}
use usbloader.Io.{Ports}
use usbloader.Screen.{
  Screen, advance_cursor_newline, advance_cursor, put, put_all, print_string, newline, vga_width,
  vga_height, vga_color_mem, vga_light_gray,
}
use usbloader.Screen.Scroll.{screen_scroll-outside}

-- The cursor is on the screen.
abbrev pub OnScreen : Screen → Type 0
OnScreen s = (s.curs_row < vga_height) × (s.curs_col < vga_width)

abbrev pub Outside : ℕ → Type 0
Outside x = (x < vga_color_mem) ⊎ (vga_color_mem + 8000 ≤ x)

advance_cursor_newline-OnScreen : (s : Screen) → OnScreen s → OnScreen (advance_cursor_newline s)
unfolding advance_cursor_newline
advance_cursor_newline-OnScreen s on = ground arith

advance_cursor-OnScreen : (s : Screen) → OnScreen s → OnScreen (advance_cursor s)
unfolding advance_cursor
advance_cursor-OnScreen s on = ground (arith, advance_cursor_newline-OnScreen s)

advance_cursor_newline-Outside :
    (s : Screen) (x : ℕ) → Outside x → (advance_cursor_newline s).memory x ≡ s.memory x
unfolding advance_cursor_newline
advance_cursor_newline-Outside s x out = ground (arith, screen_scroll-outside s.memory x)

advance_cursor-Outside : (s : Screen) (x : ℕ) → Outside x → (advance_cursor s).memory x ≡ s.memory x
unfolding advance_cursor
advance_cursor-Outside s x out = ground (arith, advance_cursor_newline-Outside s x)

-- The screen with a character at the cursor, before the cursor moves.
abbrev pub drawn : ℕ → Screen → Screen
drawn c s =
    let video = vga_color_mem + s.curs_row * vga_width * 2 + s.curs_col * 2 in
    record s { memory = store8 (store8 s.memory video c) (video + 1) vga_light_gray }

drawn-Outside :
    (c : ℕ) (s : Screen) (x : ℕ) → OnScreen s → Outside x → (drawn c s).memory x ≡ s.memory x
unfolding store8
drawn-Outside c s x on out = ground arith

put-OnScreen : (c : ℕ) (s : Screen) → OnScreen s → OnScreen (put c s)
unfolding put
put-OnScreen c s on = elim (Bool-cases (c == newline)) [
  | inl e ↦ rw e (advance_cursor_newline-OnScreen s on)
  | inr ne ↦ rw ne (advance_cursor-OnScreen (drawn c s) on)
]

put-Outside :
    (c : ℕ) (s : Screen) (x : ℕ) → OnScreen s → Outside x → (put c s).memory x ≡ s.memory x
unfolding put
put-Outside c s x on out = elim (Bool-cases (c == newline)) [
  | inl e ↦ rw e (advance_cursor_newline-Outside s x out)
  | inr ne ↦ rw ne (advance_cursor-Outside (drawn c s) x out ∙ drawn-Outside c s x on out)
]

put_all-safe :
    (cs : List ℕ) (s : Screen) (x : ℕ)
    → OnScreen s
    → Outside x
    → OnScreen (put_all cs s) × ((put_all cs s).memory x ≡ s.memory x)
unfolding put_all
put_all-safe [] s x on out = (on, refl)
put_all-safe (c ∷ cs) s x on out =
    let rest = put_all-safe cs (put c s) x (put-OnScreen c s on) out in
    (rest.0, rest.1 ∙ put-Outside c s x on out)

-- From a cursor on the screen, print_string of any string leaves the cursor on the screen and
-- changes no byte of memory outside the 8000 from the start of the video memory on.
pub print_string-safe {ℓ} :
    {W : Type ℓ} (ports : Ports W) (string : List ℕ) (s : Screen) (w : W) (x : ℕ)
    → OnScreen s
    → Outside x
    → OnScreen (print_string ports string s w).0
      × ((print_string ports string s w).0.memory x ≡ s.memory x)
unfolding print_string
print_string-safe ports string s w x on out = put_all-safe string s x on out
