-- ===== src/Screen/Text.antt =====
-- What print_string of print.c shows: a text that fits in the rest of its row.
use usbloader.Common.{
  ℕ, zero, suc, ◌+◌, ◌-◌, ◌*◌, ◌/◌, ◌%◌, ◌<◌, ◌≡◌, refl, ◌∙◌, arith, ltb, ◌==◌, Bool-cases, inl,
  inr, Bool, true, false, ◌&&◌, not, if◌then◌else◌, List, [], ◌∷◌, length,
}
use usbloader.Memory.{Bytes, store8}
use usbloader.Io.{Ports}
use usbloader.Screen.{
  Screen, print_string, move_vga_cursor, advance_cursor, put, put_all, newline, vga_width,
  vga_color_mem, vga_light_gray,
}
use usbloader.Screen.Cursor.{drawn}

-- Characters without a newline.
abbrev pub is_line : List ℕ → Bool
is_line [] = true
is_line (c ∷ cs) = not (c == newline) && is_line cs

-- The character's place, with the colour in the byte after it.
abbrev pub cell_at : (row col : ℕ) → ℕ
cell_at row col = vga_color_mem + row * vga_width * 2 + col * 2

-- The character `i` of a string, where there is one.
abbrev pub char_at : List ℕ → ℕ → ℕ → ℕ
char_at [] i other = other
char_at (c ∷ cs) zero other = c % 256
char_at (c ∷ cs) (suc i) other = char_at cs i other

put-line :
    (c : ℕ) (s : Screen)
    → (c == newline) ≡ false
    → s.curs_col + 1 < vga_width
    → put c s ≡ record (drawn c s) { curs_col = s.curs_col + 1 }
unfolding put advance_cursor
put-line c s ne fits =
    let inner : (s.curs_col + 1 == vga_width) ≡ false = ground arith in
    let wide : (s.curs_col + 1) % 256 ≡ s.curs_col + 1 = omega arith in rw (ne, inner, wide) refl

-- A text that stays in its row, at the byte `x`.
abbrev pub text : List ℕ → ℕ → Bytes → Bytes
text cs a m x =
    if ltb x a
    then m x
    else if ltb x (a + length cs * 2)
    then if (x - a) % 2 == 0 then char_at cs ((x - a) / 2) 0 else vga_light_gray
    else m x

char_at-suc :
    (c : ℕ) (cs : List ℕ) (i j other : ℕ)
    → j ≡ suc i
    → char_at (c ∷ cs) j other ≡ char_at cs i other
char_at-suc c cs i j other e = rw e refl

text-step :
    (c : ℕ) (cs : List ℕ) (a : ℕ) (m : Bytes) (x : ℕ)
    → text cs (a + 2) (store8 (store8 m a c) (a + 1) vga_light_gray) x ≡ text (c ∷ cs) a m x
unfolding store8
text-step c cs a m x = elim (Bool-cases (ltb x (a + 2))) [
  | inl near ↦ elim (Bool-cases (x == a)) [
    | inl e ↦ (let here : (x - a) / 2 ≡ 0 = ground arith in rw here (ground arith))
    | inr ne ↦ ground arith
  ]
  | inr far ↦
      let next : (x - a) / 2 ≡ suc ((x - (a + 2)) / 2) = ground arith in
      let char = char_at-suc c cs ((x - (a + 2)) / 2) ((x - a) / 2) 0 next in ground arith
]

put_all-text :
    (cs : List ℕ) (s : Screen) (x : ℕ)
    → is_line cs ≡ true
    → s.curs_col + length cs < vga_width
    → ((put_all cs s).curs_row ≡ s.curs_row)
      × ((put_all cs s).curs_col ≡ s.curs_col + length cs)
      × ((put_all cs s).memory x ≡ text cs (cell_at s.curs_row s.curs_col) s.memory x)
unfolding put_all
put_all-text [] s x line fits = (refl, omega arith, ground arith)
put_all-text (c ∷ cs) s x line fits =
    let plain : (c == newline) ≡ false = ground arith in
    let rest_line : is_line cs ≡ true = ground arith in
    let s' = record (drawn c s) { curs_col = s.curs_col + 1 } in
    let (row, col, shown) = put_all-text cs s' x rest_line (omega arith) in
    let step = text-step c cs (cell_at s.curs_row s.curs_col) s.memory x in
    let beside : cell_at s.curs_row (s.curs_col + 1) ≡ cell_at s.curs_row s.curs_col + 2 =
      omega arith in
    rw (put_all, put-line c s plain (omega arith))
      (row, col ∙ omega arith, shown ∙ (rw beside step))

-- For a string without newlines that ends before the last place of the cursor's row, print_string
-- writes its characters with the light gray colour from the cursor on and changes no other byte,
-- leaves the cursor after it in the same row, and sets the device's cursor there.
pub print_string-text {ℓ} :
    {W : Type ℓ} (ports : Ports W) (string : List ℕ) (s : Screen) (w : W) (x : ℕ)
    → is_line string ≡ true
    → s.curs_col + length string < vga_width
    → let (s', w') = print_string ports string s w in
      (s'.curs_row ≡ s.curs_row)
      × (s'.curs_col ≡ s.curs_col + length string)
      × (s'.memory x ≡ text string (cell_at s.curs_row s.curs_col) s.memory x)
      × (w' ≡ move_vga_cursor ports (s.curs_col + length string) s.curs_row w)
unfolding print_string
print_string-text ports string s w x line fits =
    let (row, col, shown) = put_all-text string s x line fits in
    (row, col, shown, rw (row, col) refl)
