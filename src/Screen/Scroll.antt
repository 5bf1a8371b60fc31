-- ===== src/Screen/Scroll.antt =====
-- What screen_scroll of print.c does to each byte.
use usbloader.Common.{
  ℕ, zero, suc, ◌+◌, ◌-◌, ◌*◌, ◌%◌, ◌≤◌, ◌<◌, ◌≡◌, refl, ◌⊎◌, ◌∙◌, arith, ltb, leb, ◌==◌,
  Bool-cases, eq_of_==, ==_of_eq, inl, inr, ◌&&◌, if◌then◌else◌,
}
use usbloader.Memory.{Bytes, store8}
use usbloader.Screen.{move_up, blank, screen_scroll, space, vga_light_gray, vga_color_mem}

-- Moving `left` bytes down by `gap` in memory.
abbrev moved : (left dst gap : ℕ) → Bytes → Bytes
moved left dst gap m x = if leb dst x && ltb x (dst + left) then m (x + gap) % 256 else m x

moved-step :
    (left dst gap : ℕ) (m : Bytes) (x : ℕ)
    → 0 < gap
    → moved left (dst + 1) gap (store8 m dst (m (dst + gap))) x ≡ moved (suc left) dst gap m x
unfolding store8
moved-step left dst gap m x pos = elim (Bool-cases (x == dst)) [
  | inl e ↦
      let here : x ≡ dst = eq_of_== x dst e in
      rw here (let self = ==_of_eq dst dst refl in ground arith)
  | inr ne ↦ ground arith
]

move_up-moved :
    (left dst gap : ℕ) (m : Bytes) (x : ℕ)
    → 0 < gap
    → move_up left dst (dst + gap) m x ≡ moved left dst gap m x
unfolding move_up store8
move_up-moved zero dst gap m x pos = ground arith
move_up-moved (suc left) dst gap m x pos =
    let ih = move_up-moved left (dst + 1) gap (store8 m dst (m (dst + gap))) x pos in
    let next : dst + 1 + gap ≡ dst + gap + 1 = omega arith in
    (rw next at ih) ∙ moved-step left dst gap m x pos

-- The byte that `blank` leaves: blanks and their colour in turn from `dst` on.
abbrev blanked : (left dst : ℕ) → Bytes → Bytes
blanked left dst m x =
    if leb dst x && ltb x (dst + left * 2)
    then if (x - dst) % 2 == 0 then space else vga_light_gray
    else m x

blank-blanked : (left dst : ℕ) (m : Bytes) (x : ℕ) → blank left dst m x ≡ blanked left dst m x
unfolding blank store8
blank-blanked zero dst m x = ground arith
blank-blanked (suc left) dst m x =
    blank-blanked left (dst + 2) (store8 (store8 m dst space) (dst + 1) vga_light_gray) x
    ∙ ground arith

-- After screen_scroll each of the first 7840 bytes of the video memory holds the byte that was 160
-- further on, and the 160 bytes from 7840 on are a row of blanks.
pub screen_scroll-moved :
    (m : Bytes) (i : ℕ)
    → i < 8000
    → screen_scroll m (vga_color_mem + i) ≡ (
        if ltb i 7840
        then m (vga_color_mem + i + 160) % 256
        else if i % 2 == 0
        then space
        else vga_light_gray)
unfolding screen_scroll
screen_scroll-moved m i lt =
    blank-blanked 80 761504 (move_up 7840 753664 753824 m) (vga_color_mem + i)
    ∙ (let up = move_up-moved 7840 753664 160 m (753664 + i) (omega arith) in ground arith)

pub screen_scroll-outside :
    (m : Bytes) (x : ℕ) → (x < 753664) ⊎ (761664 ≤ x) → screen_scroll m x ≡ m x
unfolding screen_scroll
screen_scroll-outside m x out =
    blank-blanked 80 761504 (move_up 7840 753664 753824 m) x
    ∙ (let up = move_up-moved 7840 753664 160 m x (omega arith) in ground arith)
