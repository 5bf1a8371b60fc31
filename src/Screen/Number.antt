-- ===== src/Screen/Number.antt =====
-- itoa and wstr_to_str of drivers/display/print.c. An int is a sign and a number; / and % on it
-- round towards 0, as in C. A char is the number that is stored in its byte.
pub mod Digits
pub mod Reverse
pub mod Itoa
pub mod Wide
mod Tests
use usbloader.Common.{
  ℕ, zero, suc, ◌+◌, ◌-◌, ◌*◌, ◌/◌, ◌%◌, Bool, true, false, not, ◌&&◌, ◌||◌, ltb, ◌==◌,
  if◌then◌else◌, Option, none, some, List, [], ◌∷◌,
}
use usbloader.Memory.{Bytes, store8, load16}

pub data ℤ : Type 0 where
  pos : ℕ → ℤ
  negsuc : ℕ → ℤ

abbrev pub magnitude : ℤ → ℕ
magnitude (pos n) = n
magnitude (negsuc n) = n + 1

abbrev pub negated : ℕ → ℤ
negated zero = pos 0
negated (suc n) = negsuc n

abbrev pub is_negative : ℤ → Bool
is_negative (pos n) = false
is_negative (negsuc n) = true

-- `value / base`
abbrev pub quotient : ℤ → (base : ℕ) → ℤ
quotient (pos n) base = pos (n / base)
quotient (negsuc n) base = negated ((n + 1) / base)

-- `35 + value % base`
abbrev pub digit_index : ℤ → (base : ℕ) → ℕ
digit_index (pos n) base = 35 + n % base
digit_index (negsuc n) base = 35 - (n + 1) % base

-- "zyxwvutsrqponmlkjihgfedcba9876543210123456789abcdefghijklmnopqrstuvwxyz"
abbrev pub digit_chars : List ℕ
digit_chars =
    122 ∷ 121 ∷ 120 ∷ 119 ∷ 118 ∷ 117 ∷ 116 ∷ 115 ∷ 114 ∷ 113 ∷ 112 ∷ 111 ∷ 110 ∷ 109 ∷ 108 ∷ 107
    ∷ 106 ∷ 105 ∷ 104 ∷ 103 ∷ 102 ∷ 101 ∷ 100 ∷ 99 ∷ 98 ∷ 97 ∷ 57 ∷ 56 ∷ 55 ∷ 54 ∷ 53 ∷ 52 ∷ 51 ∷ 50
    ∷ 49 ∷ 48 ∷ 49 ∷ 50 ∷ 51 ∷ 52 ∷ 53 ∷ 54 ∷ 55 ∷ 56 ∷ 57 ∷ 97 ∷ 98 ∷ 99 ∷ 100 ∷ 101 ∷ 102 ∷ 103
    ∷ 104 ∷ 105 ∷ 106 ∷ 107 ∷ 108 ∷ 109 ∷ 110 ∷ 111 ∷ 112 ∷ 113 ∷ 114 ∷ 115 ∷ 116 ∷ 117 ∷ 118 ∷ 119
    ∷ 120 ∷ 121 ∷ 122 ∷ []

-- Behind the end of the characters is the NUL.
abbrev pub char_at : List ℕ → ℕ → ℕ
char_at [] i = 0
char_at (c ∷ cs) zero = c
char_at (c ∷ cs) (suc i) = char_at cs i

-- The loop that writes the digits, the lowest first; `none` is fuel that ran out.
pub convert : ℕ → (value : ℤ) → (ptr base : ℕ) → Bytes → Option (ℕ × Bytes)
convert zero value ptr base m = none
convert (suc fuel) value ptr base m =
    let m_1 = store8 m ptr (char_at digit_chars (digit_index value base)) in
    let value_1 = quotient value base in
    let rest = convert fuel value_1 (ptr + 1) base m_1 in
    if not (magnitude value_1 == 0) then rest else some (ptr + 1, m_1)

-- The loop that turns the digits round.
pub invert : ℕ → (low ptr : ℕ) → Bytes → Option Bytes
invert zero low ptr m = none
invert (suc fuel) low ptr m =
    let tmp = m low in
    let m_1 = store8 (store8 m low (m ptr)) ptr tmp in
    let rest = invert fuel (low + 1) (ptr - 1) m_1 in if ltb low ptr then rest else some m

-- The memory with the string at `str`.
pub itoa : ℕ → (value : ℤ) → (str base : ℕ) → Bytes → Option Bytes
itoa fuel value str base m =
    let signed = is_negative value && base == 10 in
    let m_1 = if signed then store8 m str 45 else m in
    let low = if signed then str + 1 else str in
    let written : Option Bytes = elim (convert fuel value low base m_1) [
      | none ↦ none
      | some (ptr, m_2) ↦ invert fuel low (ptr - 1) (store8 m_2 ptr 0)
    ] in
    if ltb base 2 || ltb 36 base then some (store8 m str 0) else written

-- The loop over the characters, with `left` to go.
pub narrow : (left wstr str i : ℕ) → Bytes → Bytes
narrow zero wstr str i m = m
narrow (suc left) wstr str i m =
    narrow left wstr str (i + 1) (store8 m (str + i) (load16 m (wstr + 2 * i)))

pub wstr_to_str : (wstr wlen str len : ℕ) → Bytes → Bytes
wstr_to_str wstr wlen str len m =
    let l = if ltb len (wlen / 2) then len else wlen / 2 in
    store8 (narrow l wstr str 0 m) (str + l) 0
